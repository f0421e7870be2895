-- ===== src/Protocol/Frames.antt =====
-- crates/protocol/src/lib.rs: `write_frame` and `read_frame`. A stream is the bytes that are written
-- to it or left to read. MessagePack (`rmp_serde`) is a parameter: a pair of functions, with the law
-- that a value which is encoded is decoded again (a hypothesis of the theorems in RoundTrip).
pub mod RoundTrip
pub mod Streams
use ai_ssh.Base.{ℕ, ◌+◌, ◌*◌, ◌/◌, ◌%◌, ◌^◌, ◌<◌, ◌≡◌, refl, ap, List, [], ◌∷◌, ◌++◌, arith}
use ai_ssh.Base.Tests.{ltb, if◌then◌else◌}
use ai_ssh.Base.Lists.{length, take, drop, length-append}
use ai_ssh.Base.Result.{Result, ok, err, ◌>>=◌, ◌>>◌, refuse_if, map_err}
use ai_ssh.Protocol.Types.{max_frame_bytes}

-- `io::ErrorKind`, as far as the frames use it.
pub data IoError : Type 0 where
  invalid_data unexpected_eof other : IoError

abbrev pub Bytes : Type 0
Bytes = List ℕ

-- `write_u32`: four bytes, the highest first.
unfoldable pub write_u32 : ℕ → Bytes
write_u32 n = (n / 2 ^ 24 % 256) ∷ (n / 2 ^ 16 % 256) ∷ (n / 2 ^ 8 % 256) ∷ (n % 256) ∷ []

-- `read_u32`.
unfoldable pub read_u32 : Bytes → Result IoError (ℕ × Bytes)
read_u32 (a ∷ b ∷ c ∷ d ∷ rest) = ok (a * 2 ^ 24 + b * 2 ^ 16 + c * 2 ^ 8 + d, rest)
read_u32 _ = err IoError.unexpected_eof

-- `read_exact` into a buffer of `n` bytes.
unfoldable pub read_exact : ℕ → Bytes → Result IoError (Bytes × Bytes)
read_exact n bytes =
    if ltb (length bytes) n then err IoError.unexpected_eof else ok (take n bytes, drop n bytes)

-- What the code uses of `rmp_serde`.
pub record Codec (T : Type 0) : Type 1 where
  pub Failure : Type 0
  pub encode : T → Result Failure Bytes
  pub decode : Bytes → Result Failure T

module _ {T : Type 0} (codec : Codec T) where
  -- The bytes that are sent. `body.len() as u32` keeps the low 32 bits.
  unfoldable pub write_frame : T → Result IoError Bytes
  write_frame value = do
    body ← map_err (λ _. IoError.other) (codec.encode value)
    refuse_if (ltb max_frame_bytes (length body)) IoError.invalid_data
    ok (write_u32 (length body % 2 ^ 32) ++ body)

  -- The value, with the bytes that are left on the stream.
  unfoldable pub read_frame : Bytes → Result IoError (T × Bytes)
  read_frame stream = do
    head ← read_u32 stream
    refuse_if (ltb max_frame_bytes head.0) IoError.invalid_data
    body ← read_exact head.0 head.1
    value ← map_err (λ _. IoError.other) (codec.decode body.0)
    ok (value, body.1)

-- What a written number reads as.
pub read_u32-write_u32 :
    (n : ℕ) (rest : Bytes) → n < 2 ^ 32 → read_u32 (write_u32 n ++ rest) ≡ ok (n, rest)
unfolding read_u32 write_u32
read_u32-write_u32 n rest h = ap (λ (m : ℕ). ok (m, rest)) (omega arith)

pub take-append : (xs ys : Bytes) → take (length xs) (xs ++ ys) ≡ xs
take-append [] ys = refl
take-append (x ∷ xs) ys = ap (◌∷◌ x) (take-append xs ys)

pub drop-append : (xs ys : Bytes) → drop (length xs) (xs ++ ys) ≡ ys
drop-append [] ys = refl
drop-append (x ∷ xs) ys = drop-append xs ys

pub read_exact-append : (xs ys : Bytes) → read_exact (length xs) (xs ++ ys) ≡ ok (xs, ys)
unfolding read_exact
read_exact-append xs ys = ground (arith, length-append xs ys, take-append xs ys, drop-append xs ys)
