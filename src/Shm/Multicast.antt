-- ===== src/Shm/Multicast.antt =====
-- `MulticastNotifier` (transport/shm/notifier/multicast_notifier.cpp): infos as datagrams. The calls on
-- sockets are the system's: a parameter, on worlds `W`. A descriptor of -1 is `none`.
pub mod Closing
use hnu_middleware.Base.{
  ℕ, ◌+◌, ◌*◌, ◌^◌, ◌≡◌, Bool, true, false, List, Option, none, some, ltb, if◌then◌else◌, update,
}
use hnu_middleware.Serialize.Bytes.{ByteOrder}
use hnu_middleware.Shm.Readable.{ReadableInfo, serialize_to, deserialize_from}

-- `sockaddr_in` of the family `AF_INET`, with the numbers in the order of the host; `none` is all zeros.
pub record SocketAddress : Type 0 where
  pub ip : ℕ
  pub port : ℕ

pub data SocketOption : Type 0 where
  reuse_addr multicast_loop : SocketOption
  add_membership : ℕ → SocketOption

pub data Polled : Type 0 where
  ready timed_out interrupted poll_failed : Polled

pub record Sockets (W : Type 0) : Type 0 where
  -- `socket(AF_INET, SOCK_DGRAM, 0)`
  pub socket : W → Option ℕ × W
  -- `fcntl(fd, F_SETFL, O_NONBLOCK)`, `setsockopt` and `bind`: whether it did not fail
  pub set_nonblock : ℕ → W → Bool × W
  pub setsockopt : ℕ → SocketOption → W → Bool × W
  pub bind : ℕ → SocketAddress → W → Bool × W
  -- The number of bytes that are sent, or `none` for -1
  pub sendto : Option ℕ → List ℕ → Option SocketAddress → W → Option ℕ × W
  pub poll : Option ℕ → ℕ → W → Polled × W
  -- The bytes of a datagram, up to a number of them
  pub recvfrom : Option ℕ → ℕ → W → Option (List ℕ) × W
  pub close : ℕ → W → W

-- What is documented of the calls: `is_open` tells the descriptors that are open. A new descriptor is one
-- that was not open, and `close` closes the descriptor that it is given.
pub record Documented {W : Type 0} (os : Sockets W) : Type 0 where
  pub is_open : W → ℕ → Bool
  pub socket_made :
      (fd : ℕ) (w : W)
      → (os.socket w).0 ≡ some fd
      → (is_open w fd ≡ false) × (is_open (os.socket w).1 ≡ update (is_open w) fd true)
  pub socket_failed : (w : W) → (os.socket w).0 ≡ none → is_open (os.socket w).1 ≡ is_open w
  pub nonblock_same : (fd : ℕ) (w : W) → is_open (os.set_nonblock fd w).1 ≡ is_open w
  pub setsockopt_same :
      (fd : ℕ) (o : SocketOption) (w : W) → is_open (os.setsockopt fd o w).1 ≡ is_open w
  pub bind_same : (fd : ℕ) (a : SocketAddress) (w : W) → is_open (os.bind fd a w).1 ≡ is_open w
  pub close_lem : (fd : ℕ) (w : W) → is_open (os.close fd w) ≡ update (is_open w) fd false

-- `MulticastNotifier`
pub record Multicast : Type 0 where
  pub notify_fd : Option ℕ
  pub notify_addr : Option SocketAddress
  pub listen_fd : Option ℕ
  pub listen_addr : Option SocketAddress
  pub is_shutdown : Bool

abbrev pub mcast_ip : ℕ
mcast_ip = 239 * 2 ^ 24 + 255 * 2 ^ 16 + 100

abbrev pub mcast_port : ℕ
mcast_port = 8888

module _ {W : Type 0} (os : Sockets W) where
  -- A call that must not fail, and what follows it
  unfoldable pub guarded : Bool × W → Multicast → (W → Bool × Multicast × W) → Bool × Multicast × W
  guarded (false, w) m then_on = (false, m, w)
  guarded (true, w) m then_on = then_on w

  -- `Init` from the descriptor to listen on
  unfoldable pub with_listen : Option ℕ → Multicast → W → Bool × Multicast × W
  with_listen none m w = (false, record m { listen_fd = none }, w)
  with_listen (some fd) m w =
      let made = record m { listen_fd = some fd } in
      let any : SocketAddress = record { ip = 0; port = mcast_port } in
      let placed = record made { listen_addr = some any } in
      guarded (os.set_nonblock fd w) made λ w1.
        guarded (os.setsockopt fd reuse_addr w1) placed λ w2.
          guarded (os.bind fd any w2) placed λ w3.
            guarded (os.setsockopt fd multicast_loop w3) placed λ w4.
              guarded (os.setsockopt fd (add_membership mcast_ip) w4) placed
                λ w5. (true, placed, w5)

  -- ... and from the descriptor to notify on
  unfoldable pub with_notify : Option ℕ → Multicast → W → Bool × Multicast × W
  with_notify none m w = (false, record m { notify_fd = none }, w)
  with_notify (some fd) m w =
      let group : SocketAddress = record { ip = mcast_ip; port = mcast_port } in
      with_listen (os.socket w).0 (record m { notify_fd = some fd; notify_addr = some group })
        (os.socket w).1

  unfoldable pub init : Multicast → W → Bool × Multicast × W
  init m w = with_notify (os.socket w).0 m (os.socket w).1

  unfoldable pub close_fd : Option ℕ → W → W
  close_fd none w = w
  close_fd (some fd) w = os.close fd w

  unfoldable pub shutdown : Multicast → W → Multicast × W
  shutdown m w = if m.is_shutdown then (m, w) else (
    record {
      notify_fd = none;
      notify_addr = none;
      listen_fd = none;
      listen_addr = none;
      is_shutdown = true;
    },
    close_fd m.listen_fd (close_fd m.notify_fd w),
  )

  -- The constructor, after the members' initial values
  unfoldable pub constructed : Bool × Multicast × W → Multicast × W
  constructed (true, m, w) = (m, w)
  constructed (false, m, w) = shutdown m w

  unfoldable pub new_multicast : W → Multicast × W
  new_multicast w =
      let members : Multicast = record {
        notify_fd = none;
        notify_addr = none;
        listen_fd = none;
        listen_addr = none;
        is_shutdown = false;
      } in
      constructed (init members w)

  unfoldable pub sent : Option ℕ → Bool
  sent none = false
  sent (some nbytes) = ltb 0 nbytes

  unfoldable pub notify : ByteOrder → ReadableInfo → Multicast → W → Bool × W
  notify host info m w =
      let done = os.sendto m.notify_fd (serialize_to host info) m.notify_addr w in
      if m.is_shutdown then (false, w) else (sent done.0, done.1)

  unfoldable pub received : ByteOrder → Option (List ℕ) → ReadableInfo → Bool × ReadableInfo
  received host none info = (false, info)
  received host (some bytes) info = deserialize_from host bytes info

  unfoldable pub polled :
      ByteOrder → Polled → Multicast → ReadableInfo → W → Bool × ReadableInfo × W
  polled host ready m info w =
      let got = os.recvfrom m.listen_fd 32 w in
      let (ok, heard) = received host got.0 info in (ok, heard, got.1)
  polled host timed_out m info w = (false, info, w)
  polled host interrupted m info w = (false, info, w)
  polled host poll_failed m info w = (false, info, w)

  unfoldable pub listen : ByteOrder → ℕ → Multicast → ReadableInfo → W → Bool × ReadableInfo × W
  listen host timeout_ms m info w =
      let answer = os.poll m.listen_fd timeout_ms w in
      if m.is_shutdown then (false, info, w) else polled host answer.0 m info answer.1
