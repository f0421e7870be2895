-- ===== src/Protocol/Frames/Streams.antt =====
-- crates/protocol/src/lib.rs: several frames on one stream.
use ai_ssh.Base.{ℕ, ◌≤◌, ◌<◌, ◌≡◌, ap, sym, List, [], ◌∷◌, ◌++◌, arith, inl, inr}
use ai_ssh.Base.Lists.{length, take, drop, length-append, take-append-drop}
use ai_ssh.Base.Result.{Result, ok, ◌>>=◌, Result-cases}
use ai_ssh.Protocol.Frames.{Bytes, Codec, IoError, write_frame, read_frame, read_u32, read_exact}

-- What a decoder that is faithful to the encoder gives back.
abbrev pub IsFaithful : {T : Type 0} → Codec T → Type 0
IsFaithful {T} codec =
    (value : T) (body : Bytes) → codec.encode value ≡ ok body → codec.decode body ≡ ok value

drop-le : (n : ℕ) (bytes : Bytes) → length (drop n bytes) ≤ length bytes
drop-le n bytes = omega (
  arith,
  ap (length {A = ℕ}) (take-append-drop n bytes),
  length-append (take n bytes) (drop n bytes),
)

module _ {T : Type 0} (codec : Codec T) where
  unfoldable pub write_all : List T → Result IoError Bytes
  write_all [] = ok []
  write_all (value ∷ values) =
      write_frame codec value >>= (λ bytes. write_all values >>= λ later. ok (bytes ++ later))

  -- The first frame of several that were written, and the others.
  pub write_all-parts :
      (value : T) (values : List T) (bytes : Bytes)
      → write_all (value ∷ values) ≡ ok bytes
      → (first : Bytes) × (later : Bytes) × (write_frame codec value ≡ ok first)
        × (write_all values ≡ ok later)
        × (bytes ≡ first ++ later)
  unfolding write_all
  write_all-parts value values bytes h = elim (Result-cases (write_frame codec value)) [
    | inr (failed, e) ↦ absurd (cc (rw e at h))
    | inl (first, e) ↦ elim (Result-cases (write_all values)) [
      | inr (failed, f) ↦ absurd (cc (rw f at (rw e at h)))
      | inl (later, f) ↦ (first, later, e, f, cc (rw f at (rw e at h)))
    ]
  ]

  read_u32_shorter :
      (stream : Bytes) (n : ℕ) (rest : Bytes)
      → read_u32 stream ≡ ok (n, rest)
      → length rest < length stream
  unfolding read_u32
  read_u32_shorter [] n rest h = absurd (cc)
  read_u32_shorter (a ∷ []) n rest h = absurd (cc)
  read_u32_shorter (a ∷ b ∷ []) n rest h = absurd (cc)
  read_u32_shorter (a ∷ b ∷ c ∷ []) n rest h = absurd (cc)
  read_u32_shorter (a ∷ b ∷ c ∷ d ∷ p) n rest h =
      let same : p ≡ rest = cc in rw (sym same) (omega arith)

  -- Every frame that is read takes bytes from the stream.
  pub read_frame_shorter :
      (stream : Bytes) (value : T) (rest : Bytes)
      → read_frame codec stream ≡ ok (value, rest)
      → length rest < length stream
  unfolding read_frame read_exact
  read_frame_shorter stream value rest h = elim (Result-cases (read_u32 stream)) [
    | inr (failed, e) ↦ absurd (cc (rw e at h))
    | inl ((n, body), e) ↦
        let less = read_u32_shorter stream n body e in ground (arith, drop-le n body)
  ]
