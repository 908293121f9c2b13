-- ===== src/Serialize/Operators.antt =====
-- `DataStream::operator<<` and `DataStream::operator>>` (serialize/data_stream.h,
-- serialize/data_stream.cpp), which give the stream back, so that calls form a chain.
use hnu_middleware.Base.{
  ℕ, ◌≤◌, ◌≡◌, refl, true, Option, some, [], ◌++◌, append-nil, ◌>>=◌, length, arith,
}
use hnu_middleware.Serialize.Bytes.{ByteOrder, byteorder_lem}
use hnu_middleware.Serialize.Stream.Transfer.{at}
use hnu_middleware.Serialize.Codec.{Codec, IsLawful}
use hnu_middleware.Serialize.Stream.{Stream, empty_stream, stream_of}
use hnu_middleware.Serialize.Stream.Reserve.{room}
use hnu_middleware.Serialize.Containers.{both}
use hnu_middleware.Serialize.Containers.Laws.{both-IsLawful}

module _ {T : Type 0} (c : Codec T) where
  unfoldable pub put_to : ByteOrder → T → Stream → Option Stream
  put_to host value s = c.write host value s

  -- The result of `read` is dropped.
  unfoldable pub get_from : ByteOrder → T → Stream → Option (T × Stream)
  get_from host value s = do (_, v, r) ← c.read host value s; some (v, r)

module _ {T U : Type 0} (c : Codec T) (d : Codec U) where
  -- `ds << v << w`
  unfoldable pub put_two : ByteOrder → T → U → Stream → Option Stream
  put_two host v w s = do r ← put_to c host v s; put_to d host w r

  -- `ds >> v >> w`
  unfoldable pub get_two : ByteOrder → T → U → Stream → Option (T × (U × Stream))
  get_two host v w s = do
    (v', r) ← get_from c host v s
    (w', r') ← get_from d host w r
    some (v', (w', r'))

module _ {T U : Type 0} {c : Codec T} {d : Codec U} {ValidT : T → Type 0} {ValidU : U → Type 0}
    (l : IsLawful c ValidT) (k : IsLawful d ValidU) where
  get_two-at :
      (host : ByteOrder) (held : ℕ) (v old : T) (w old' : U)
      → ValidT v
      → ValidU w
      → get_two c d host old old' (at host held [] (l.encode v ++ k.encode w))
        ≡ some (v, (w, at host held (l.encode v ++ k.encode w) []))
  unfolding get_two get_from
  get_two-at host held v old w old' valid valid' =
      let second : d.read host old' (at host held (l.encode v) (k.encode w))
          ≡ some (true, w, at host held (l.encode v ++ k.encode w) []) =
        rw (append-nil (k.encode w)) at (k.read-at host held (l.encode v) w old' [] valid') in
      rw (l.read-at host held [] v old (k.encode w) valid, second) refl

  -- Two values that are put into a stream on one host are got from it in that order on another, if
  -- their codecs read back what they write and both need at most 2^30 bytes.
  pub get_two-put_two :
      (sender receiver : ByteOrder) (v old : T) (w old' : U)
      → ValidT v
      → ValidU w
      → length ((both-IsLawful l k).encode (v, w)) ≤ room
      → (s r : Stream) × (put_two c d sender v w (empty_stream sender) ≡ some s)
        × (get_two c d receiver old old' (stream_of receiver s.buf) ≡ some (v, (w, r)))
  unfolding put_two put_to empty_stream stream_of both both-IsLawful
  get_two-put_two sender receiver v old w old' valid valid' fits =
      let (s, e, wrote) =
        (both-IsLawful l k).write-Writes sender (v, w) (empty_stream sender) (byteorder_lem sender)
          (valid, valid') (omega arith) in
      (
        s,
        at receiver (length (l.encode v ++ k.encode w)) (l.encode v ++ k.encode w) [],
        e,
        rw (wrote.buf, byteorder_lem receiver)
            (get_two-at receiver (length (l.encode v ++ k.encode w)) v old w old' valid valid'),
      )
