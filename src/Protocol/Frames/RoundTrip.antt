-- ===== src/Protocol/Frames/RoundTrip.antt =====
-- What crosses the stream: `write_frame` and `read_frame` of crates/protocol/src/lib.rs together.
use mathlib.Core.List.{append_assoc}
use ai_ssh.Base.{ℕ, ◌%◌, ◌^◌, ◌≤◌, ◌<◌, ◌≡◌, refl, ap, sym, subst, [], ◌∷◌, ◌++◌, arith, inl, inr}
use ai_ssh.Base.Lists.{length, length-append}
use ai_ssh.Base.Result.{ok, err, Result-cases}
use ai_ssh.Protocol.Types.{max_frame_bytes}
use ai_ssh.Protocol.Frames.{
  Bytes, Codec, IoError, write_frame, read_frame, write_u32, read_u32, read_exact,
  read_u32-write_u32, read_exact-append,
}

module _ {T : Type 0} (codec : Codec T) where
  -- A frame that was written is its length in four bytes and its body, within the limit.
  pub write_frame-parts :
      (value : T) (bytes : Bytes)
      → write_frame codec value ≡ ok bytes
      → (body : Bytes) × (codec.encode value ≡ ok body)
        × (length body ≤ max_frame_bytes)
        × (bytes ≡ write_u32 (length body) ++ body)
  unfolding write_frame
  write_frame-parts value bytes h = elim (Result-cases (codec.encode value)) [
    | inl (body, e) ↦
        let fits : length body ≤ max_frame_bytes = ground arith in
        let same : length body % 2 ^ 32 ≡ length body = omega arith in
        (body, e, fits, ground (arith, same))
    | inr (f, e) ↦ absurd (ground arith)
  ]

  -- Reading the bytes of a written frame gives the value back and leaves what follows it, for every
  -- value that the codec decodes again.
  pub read_frame-write_frame :
      (value : T) (bytes rest : Bytes)
      → ((body : Bytes) → codec.encode value ≡ ok body → codec.decode body ≡ ok value)
      → write_frame codec value ≡ ok bytes
      → read_frame codec (bytes ++ rest) ≡ ok (value, rest)
  unfolding read_frame
  read_frame-write_frame value bytes rest faithful h =
      let (body, encoded, fits, e) = write_frame-parts value bytes h in
      rw e (
        ground (
          arith,
          read_u32-write_u32 (length body) (body ++ rest) (omega arith),
          append_assoc (write_u32 (length body)) body rest,
          read_exact-append body rest,
          faithful body encoded,
        ))

  -- A length above the limit is refused before any byte of the body is read, whatever follows.
  pub read_frame_too_large :
      (n : ℕ) (rest : Bytes)
      → max_frame_bytes < n
      → n < 2 ^ 32
      → read_frame codec (write_u32 n ++ rest) ≡ err IoError.invalid_data
  unfolding read_frame
  read_frame_too_large n rest over word = ground (arith, read_u32-write_u32 n rest word)

  read_frame_short :
      (n : ℕ) (p : Bytes)
      → n ≤ max_frame_bytes
      → length p < n
      → read_frame codec (write_u32 n ++ p) ≡ err IoError.unexpected_eof
  unfolding read_frame read_exact
  read_frame_short n p fits short = ground (arith, read_u32-write_u32 n p (omega arith))

  -- What is left of a frame that was cut off: fewer bytes than the frame has.
  read_frame_cut :
      (body p : Bytes) (x : ℕ) (q : Bytes)
      → length body ≤ max_frame_bytes
      → write_u32 (length body) ++ body ≡ p ++ x ∷ q
      → read_frame codec p ≡ err IoError.unexpected_eof
  unfolding read_frame read_u32 write_u32
  read_frame_cut body [] x q fits e = refl
  read_frame_cut body (a ∷ []) x q fits e = refl
  read_frame_cut body (a ∷ b ∷ []) x q fits e = refl
  read_frame_cut body (a ∷ b ∷ c ∷ []) x q fits e = refl
  read_frame_cut body (a ∷ b ∷ c ∷ d ∷ p) x q fits e =
      let tail : body ≡ p ++ x ∷ q = cc in
      let front : a ∷ b ∷ c ∷ d ∷ p ≡ write_u32 (length body) ++ p = cc in
      let short : length p < length body =
        omega (arith, ap (length {A = ℕ}) tail, length-append p (x ∷ q)) in
      subst (λ s. read_frame codec s ≡ err IoError.unexpected_eof) (sym front)
        (read_frame_short (length body) p fits short)

  -- A stream that ends inside a written frame, before its last byte, reads as the end of the file.
  pub read_frame_truncated :
      (value : T) (p : Bytes) (x : ℕ) (q : Bytes)
      → write_frame codec value ≡ ok (p ++ x ∷ q)
      → read_frame codec p ≡ err IoError.unexpected_eof
  read_frame_truncated value p x q h =
      let (body, _, fits, e) = write_frame-parts value (p ++ x ∷ q) h in
      read_frame_cut body p x q fits (sym e)
