-- ===== src/Shm/Notifier.antt =====
-- `ConditionNotifier::Notify` and `ConditionNotifier::Listen` (transport/shm/notifier/condition_notifier.cpp,
-- condition_notifier.h): a ring of infos in shared memory, behind a count of the notifications.
use hnu_middleware.Base.{
  ℕ, ◌+◌, ◌-◌, ◌*◌, ◌/◌, ◌%◌, ◌^◌, ◌<◌, ◌≤◌, ◌≡◌, ◌≢◌, refl, sym, ap, subst, ◌∙◌, Bool, true, false,
  List, [], ◌∷◌, ◌++◌, Option, none, some, length, append-nil, append_assoc, ne→==_false,
  length-append, get_elem?, get_elem?-append, get_elem?-append_left, ltb, leb, ◌==◌, not,
  if◌then◌else◌, update, update_self, update-other, ℕ_discrete, dec_lt, Option-cases, inl, inr,
  arith,
}

abbrev pub k_buf_length : ℕ
k_buf_length = 4096

pub record Indicator (I : Type 0) : Type 0 where
  pub next_seq : ℕ
  pub infos : ℕ → I
  pub seqs : ℕ → ℕ

-- A new `Indicator`, each info as its constructor leaves it
unfoldable pub new_indicator : {I : Type 0} → I → Indicator I
new_indicator unset = record { next_seq = 0; infos = λ i. unset; seqs = λ i. 0 }

module _ {I : Type 0} where
  -- `next_seq.fetch_add(1)`
  unfoldable pub claim : Indicator I → Indicator I
  claim ind = record ind { next_seq = (ind.next_seq + 1) % 2 ^ 64 }

  -- The two stores of `Notify` to the place of a sequence number
  unfoldable pub put : ℕ → I → Indicator I → Indicator I
  put seq info ind = record ind {
    infos = update ind.infos (seq % k_buf_length) info;
    seqs = update ind.seqs (seq % k_buf_length) seq;
  }

  unfoldable pub notify : Bool → I → Indicator I → Bool × Indicator I
  notify is_shutdown info ind =
      if is_shutdown then (false, ind) else (true, put ind.next_seq info (claim ind))

  -- One turn of the loop of `Listen`: the info and the new `next_seq_`, if there is one to be read.
  unfoldable pub try_read : ℕ → Indicator I → Option (I × ℕ)
  try_read next_seq ind =
      let idx = next_seq % k_buf_length in
      let actual_seq = ind.seqs idx in
      if not (ind.next_seq == next_seq)
      then (if leb next_seq actual_seq
          then some (ind.infos idx, (actual_seq + 1) % 2 ^ 64)
          else none)
      else none

  -- The loop of `Listen`, on what it sees in each turn: whether the notifier is shut down, and the
  -- indicator. `none` is a loop that is not over yet; `some none` is false.
  unfoldable pub listen : List (Bool × Indicator I) → ℕ → ℕ → Option (Option (I × ℕ))
  listen [] timeout_us next_seq = none
  listen ((is_shutdown, ind) ∷ views) timeout_us next_seq =
      let later = listen views (timeout_us - 50) next_seq in
      let waited = if ltb 0 timeout_us then later else some none in
      let turn : Option (Option (I × ℕ)) = elim (try_read next_seq ind) [
        | none ↦ waited
        | some r ↦ some (some r)
      ] in
      if is_shutdown then some none else turn

  -- The notifications of a log, one after the other.
  unfoldable pub notify_all : List I → Indicator I → Indicator I
  notify_all [] ind = ind
  notify_all (x ∷ xs) ind = notify_all xs (notify false x ind).1

  -- A loop of `Listen` with a timeout of `timeout_us` µs is over after one turn more
  -- than 50 goes into `timeout_us`, rounded up, whatever it sees in them.
  pub listen-ends :
      (views : List (Bool × Indicator I)) (timeout_us next_seq : ℕ)
      → (timeout_us + 49) / 50 + 1 ≤ length views
      → (r : Option (I × ℕ)) × (listen views timeout_us next_seq ≡ some r)
  unfolding listen
  listen-ends [] timeout_us next_seq h = absurd (omega arith)
  listen-ends ((true, ind) ∷ views) timeout_us next_seq h = (none, refl)
  listen-ends ((false, ind) ∷ views) timeout_us next_seq h =
      elim (Option-cases (try_read next_seq ind)) [
        | inr (r, got) ↦ (some r, rw (got) refl)
        | inl nothing_yet ↦ elim (dec_lt 0 timeout_us) [
          | yes more ↦
              let (r, e) = listen-ends views (timeout_us - 50) next_seq (omega arith) in
              let waits : ltb 0 timeout_us ≡ true = ground arith in (r, rw (nothing_yet, waits) e)
          | no over ↦
              let ends : ltb 0 timeout_us ≡ false = ground arith in
              (none, rw (nothing_yet, ends) refl)
        ]
      ]

  -- The places of the last notifications hold them, each with its number.
  record Holds (log : List I) (ind : Indicator I) : Type 0 where
    count : ind.next_seq ≡ length log
    held :
        (k : ℕ)
        → k < length log
        → length log ≤ k + k_buf_length
        → (get_elem? log k ≡ some (ind.infos (k % k_buf_length)))
          × (ind.seqs (k % k_buf_length) ≡ k)

  notify-Holds :
      (log : List I) (x : I) (ind : Indicator I)
      → length log + 1 < 2 ^ 64
      → Holds log ind
      → Holds (log ++ x ∷ []) (notify false x ind).1
  unfolding notify put claim
  notify-Holds log x ind few h = record {
    count = omega (arith, h.count, length-append log (x ∷ []));
    held = λ k lt near. elim (ℕ_discrete ind.next_seq k) [
      | yes new ↦ (
        subst
            (λ m.
              get_elem? (log ++ x ∷ []) m
              ≡ some (update ind.infos (ind.next_seq % k_buf_length) x (m % k_buf_length)))
            new
            (subst
              (λ m.
                get_elem? (log ++ x ∷ []) m
                ≡ some (
                    update ind.infos (ind.next_seq % k_buf_length) x (ind.next_seq % k_buf_length)))
              (sym h.count)
              (get_elem?-append log x []
                ∙ ap some (sym (update_self ind.infos (ind.next_seq % k_buf_length) x)))),
        subst
            (λ m. update ind.seqs (ind.next_seq % k_buf_length) ind.next_seq (m % k_buf_length) ≡ m)
            new (update_self ind.seqs (ind.next_seq % k_buf_length) ind.next_seq),
      )
      | no old ↦
          let shorter : length (log ++ x ∷ []) ≡ length log + 1 = length-append log (x ∷ []) in
          let apart : ind.next_seq % k_buf_length ≢ k % k_buf_length = omega (arith, h.count) in
          let (there, numbered) = h.held k (omega (arith, h.count)) (omega arith) in
          (
            get_elem?-append_left log (x ∷ []) k there
                ∙ ap some (
                    sym (
                      update-other ind.infos (ind.next_seq % k_buf_length) (k % k_buf_length) x
                        apart)),
            update-other ind.seqs (ind.next_seq % k_buf_length) (k % k_buf_length) ind.next_seq
                  apart
                ∙ numbered,
          )
    ];
  }

  notify_all-Holds :
      (log xs : List I) (ind : Indicator I)
      → length log + length xs < 2 ^ 64
      → Holds log ind
      → Holds (log ++ xs) (notify_all xs ind)
  unfolding notify_all
  notify_all-Holds log [] ind few h = rw append-nil h
  notify_all-Holds log (x ∷ xs) ind few h =
      subst (λ l. Holds l (notify_all xs (notify false x ind).1)) (append_assoc log (x ∷ []) xs)
        (notify_all-Holds (log ++ x ∷ []) xs (notify false x ind).1
          (omega (arith, length-append log (x ∷ []))) (notify-Holds log x ind (omega arith) h))

  new-Holds : (unset : I) → Holds [] (new_indicator unset)
  unfolding new_indicator
  new-Holds unset = record { count = refl; held = λ k lt near. absurd (omega arith) }

  -- What a reader of the place of its next number gets.
  pub record Next (log : List I) (seq : ℕ) (got : Option (I × ℕ)) : Type 0 where
    number : ℕ
    info : I
    not_before : seq ≤ number
    same_place : number % k_buf_length ≡ seq % k_buf_length
    latest : length log ≤ number + k_buf_length
    logged : get_elem? log number ≡ some info
    is_got : got ≡ some (info, number + 1)

  try_read-Next :
      (log : List I) (ind : Indicator I) (seq : ℕ)
      → length log < 2 ^ 64
      → Holds log ind
      → seq < length log
      → Next log seq (try_read seq ind)
  unfolding try_read
  try_read-Next log ind seq few h lt =
      let number = seq + k_buf_length * ((length log - 1 - seq) / k_buf_length) in
      let place : number % k_buf_length ≡ seq % k_buf_length = omega arith in
      let (there, numbered) = h.held number (omega arith) (omega arith) in
      let actual : ind.seqs (seq % k_buf_length) ≡ number = ap ind.seqs (sym place) ∙ numbered in
      let more : (ind.next_seq == seq) ≡ false =
        ne→==_false ind.next_seq seq (omega (arith, h.count)) in
      let ready : leb seq number ≡ true = ground arith in
      let wraps : (number + 1) % 2 ^ 64 ≡ number + 1 = omega arith in
      record {
        number = number;
        info = ind.infos (seq % k_buf_length);
        not_before = omega arith;
        same_place = place;
        latest = omega arith;
        logged = there ∙ ap (λ i. some (ind.infos i)) place;
        is_got = rw (more, actual, ready, wraps) refl;
      }

  try_read-up_to_date : (seq : ℕ) (ind : Indicator I) → ind.next_seq ≡ seq → try_read seq ind ≡ none
  unfolding try_read
  try_read-up_to_date seq ind e = ground arith

  -- Whole notifications, fewer than 2^64, follow one another on a new indicator. A reader whose next
  -- number is below their count reads one of them, and its next number is the one behind: the latest
  -- that has the place of its number, which is no earlier one. A reader whose next number is their
  -- count reads nothing.
  pub try_read-notify_all :
      (log : List I) (unset : I) (seq : ℕ)
      → length log < 2 ^ 64
      → seq < length log
      → (Next log seq (try_read seq (notify_all log (new_indicator unset))))
        × (try_read (length log) (notify_all log (new_indicator unset)) ≡ none)
  try_read-notify_all log unset seq few lt =
      let h = notify_all-Holds [] log (new_indicator unset) (omega arith) (new-Holds unset) in
      (
        try_read-Next log (notify_all log (new_indicator unset)) seq few h lt,
        try_read-up_to_date (length log) (notify_all log (new_indicator unset)) h.count,
      )
