-- ===== src/Tests/Multicast.antt =====
-- A notifier on sockets at fixed inputs.
use hnu_middleware.Base.{ℕ, ◌≡◌, refl, subst, Bool, true, false, Option, none, some, ltb, update}
use mathlib.Core.Option.{some-injective}
use hnu_middleware.Shm.Multicast.{
  Sockets, SocketOption, reuse_addr, multicast_loop, add_membership, Documented, timed_out,
}

-- Whether an option can be set: to join a group fails.
abbrev joins : SocketOption → Bool
joins reuse_addr = true
joins multicast_loop = true
joins (add_membership ip) = false

-- A world is the open descriptors; there are two more for sockets, 3 and 4.
abbrev new_socket : Bool → Bool → (ℕ → Bool) → Option ℕ × (ℕ → Bool)
new_socket true true w = (none, w)
new_socket true false w = (some 4, update w 4 true)
new_socket false b w = (some 3, update w 3 true)

abbrev sockets : Sockets (ℕ → Bool)
sockets = record {
  socket = λ w. new_socket (w 3) (w 4) w;
  set_nonblock = λ fd w. (true, w);
  setsockopt = λ fd o w. (joins o, w);
  bind = λ fd a w. (true, w);
  sendto = λ fd bytes a w. (none, w);
  poll = λ fd timeout w. (timed_out, w);
  recvfrom = λ fd n w. (none, w);
  close = λ fd w. update w fd false;
}

abbrev Fresh : ℕ → (ℕ → Bool) → (ℕ → Bool) → Type 0
Fresh fd w w' = (w fd ≡ false) × (w' ≡ update w fd true)

new_socket-some :
    (a b : Bool) (fd : ℕ) (w : ℕ → Bool)
    → w 3 ≡ a
    → w 4 ≡ b
    → (new_socket a b w).0 ≡ some fd
    → Fresh fd w (new_socket a b w).1
new_socket-some true true fd w was_3 was_4 e = cc
new_socket-some true false fd w was_3 was_4 e =
    subst (λ k. Fresh k w (update w 4 true)) (some-injective 4 fd e) (was_4, refl)
new_socket-some false b fd w was_3 was_4 e =
    subst (λ k. Fresh k w (update w 3 true)) (some-injective 3 fd e) (was_3, refl)

new_socket-none :
    (a b : Bool) (w : ℕ → Bool) → (new_socket a b w).0 ≡ none → (new_socket a b w).1 ≡ w
new_socket-none true true w e = refl
new_socket-none true false w e = cc
new_socket-none false b w e = cc

abbrev sockets_documented : Documented sockets
sockets_documented = record {
  is_open = λ w. w;
  socket_made = λ fd w e. new_socket-some (w 3) (w 4) fd w refl refl e;
  socket_failed = λ w e. new_socket-none (w 3) (w 4) w e;
  nonblock_same = λ fd w. refl;
  setsockopt_same = λ fd o w. refl;
  bind_same = λ fd a w. refl;
  close_lem = λ fd w. refl;
}

-- The descriptors 0 to 2 are open.
abbrev standard : ℕ → Bool
standard fd = ltb fd 3
