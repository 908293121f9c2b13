-- ===== src/Serialize/Stream/Transfer.antt =====
-- Raw writes append to the buffer and raw reads take from it: how runs of them compose.
use hnu_middleware.Base.{
  ℕ, ◌+◌, ◌≤◌, ◌<◌, ◌≡◌, refl, sym, ap, ◌∙◌, Option, some, List, [], ◌∷◌, ◌++◌, append_assoc,
  append-nil, length, length-append, take-length, slice-append, get_elem?-append, ◌==◌, ◌>>=◌,
  arith,
}
use hnu_middleware.Serialize.Bytes.{ByteOrder}
use hnu_middleware.Serialize.Stream.{
  Stream, DataType, int_limit, code, write_raw, read_raw, has_tag, next_pos,
}
use hnu_middleware.Serialize.Stream.Reserve.{room, reserve_total}

-- A write from `s` that succeeded and appended `bytes`; its order and position stay.
pub record Wrote (s : Stream) (bytes : List ℕ) (s' : Stream) : Type 0 where
  pub buf : s'.buf ≡ s.buf ++ bytes
  pub order : s'.byte_order ≡ s.byte_order
  pub pos : s'.pos ≡ s.pos
  pub few : s'.capacity < int_limit

abbrev pub Writes : Stream → List ℕ → Option Stream → Type 0
Writes s bytes r = (s' : Stream) × (r ≡ some s') × Wrote s bytes s'

abbrev pub Fits : Stream → List ℕ → Type 0
Fits s bytes = (length s.buf + length bytes ≤ room) × (s.capacity < int_limit)

pub write_raw-Writes :
    (bytes : List ℕ) (s : Stream) → Fits s bytes → Writes s bytes (write_raw bytes (length bytes) s)
unfolding write_raw
write_raw-Writes bytes s h =
    let (c, e, lo, hi) = reserve_total (length bytes) s h.0 h.1 in
    (
      record s { buf = s.buf ++ bytes; capacity = c },
      ground (arith, e, take-length bytes),
      record { buf = refl; order = refl; pos = refl; few = hi },
    )

pub Writes-bind :
    (s : Stream) (xs ys : List ℕ) {m : Option Stream} {f : Stream → Option Stream}
    → Fits s (xs ++ ys)
    → (Fits s xs → Writes s xs m)
    → ((s' : Stream) → Wrote s xs s' → Fits s' ys → Writes s' ys (f s'))
    → Writes s (xs ++ ys) (m >>= f)
Writes-bind s xs ys {f = f} h first rest =
    let (s₁, e₁, w₁) = first (omega (arith, h.0, length-append xs ys), h.1) in
    let fits : Fits s₁ ys =
      (omega (arith, h.0, length-append xs ys, ap length w₁.buf, length-append s.buf xs), w₁.few) in
    let (s₂, e₂, w₂) = rest s₁ w₁ fits in
    (
      s₂,
      rw e₁ e₂,
      record {
        buf = w₂.buf ∙ rw (w₁.buf, append_assoc);
        order = w₂.order ∙ w₁.order;
        pos = w₂.pos ∙ w₁.pos;
        few = w₂.few;
      },
    )

pub Writes-nothing : (s : Stream) → s.capacity < int_limit → Writes s [] (some s)
Writes-nothing s few =
    (s, refl, record { buf = sym (append-nil s.buf); order = refl; pos = refl; few = few })

-- A host's stream with the position after `pre`, and `rest` still to be read.
abbrev pub at : ByteOrder → ℕ → List ℕ → List ℕ → Stream
at host held pre rest = record {
  byte_order = host;
  buf = pre ++ rest;
  capacity = held;
  pos = length pre;
}

module _ (host : ByteOrder) (held : ℕ) (pre : List ℕ) where
  pub read_raw-at :
      (bytes rest : List ℕ)
      → read_raw (length bytes) (at host held pre (bytes ++ rest))
        ≡ some (bytes, at host held (pre ++ bytes) rest)
  unfolding read_raw
  read_raw-at bytes rest = rw (slice-append, append_assoc, length-append)

  pub has_tag-at :
      (type : DataType) (b : ℕ) (rest : List ℕ)
      → has_tag type (at host held pre (b ∷ rest)) ≡ some (b == code type)
  unfolding has_tag
  has_tag-at type b rest = rw get_elem?-append

  pub next_pos-at :
      (b : ℕ) (rest : List ℕ)
      → next_pos (at host held pre (b ∷ rest)) ≡ at host held (pre ++ b ∷ []) rest
  unfolding next_pos
  next_pos-at b rest = rw (append_assoc, length-append)
