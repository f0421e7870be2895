-- ===== src/Protocol/Examples.antt =====
-- crates/protocol/src/lib.rs: inputs on which the theorems apply.
use ai_ssh.Base.{◌≡◌, refl, [], ◌∷◌}
use ai_ssh.Base.Result.{ok, err}
use ai_ssh.Protocol.Frames.{Bytes, Codec, IoError, write_frame, write_u32, read_frame}
use ai_ssh.Protocol.Frames.RoundTrip.{read_frame-write_frame, read_frame_truncated}

-- Values that are their own encoding.
abbrev plain_codec : Codec Bytes
plain_codec = record { Failure = Unit {0}; encode = λ value. ok value; decode = λ body. ok body }

hello_frame : write_frame plain_codec (7 ∷ 8 ∷ []) ≡ ok (0 ∷ 0 ∷ 0 ∷ 2 ∷ 7 ∷ 8 ∷ [])
unfolding write_frame write_u32
hello_frame = refl

read_frame-write_frame_example :
    read_frame plain_codec (0 ∷ 0 ∷ 0 ∷ 2 ∷ 7 ∷ 8 ∷ 9 ∷ []) ≡ ok (7 ∷ 8 ∷ [], 9 ∷ [])
read_frame-write_frame_example =
    read_frame-write_frame plain_codec (7 ∷ 8 ∷ []) (0 ∷ 0 ∷ 0 ∷ 2 ∷ 7 ∷ 8 ∷ []) (9 ∷ [])
      (λ body h. cc) hello_frame

read_frame_truncated_example :
    read_frame plain_codec (0 ∷ 0 ∷ 0 ∷ 2 ∷ 7 ∷ []) ≡ err IoError.unexpected_eof
read_frame_truncated_example =
    read_frame_truncated plain_codec (7 ∷ 8 ∷ []) (0 ∷ 0 ∷ 0 ∷ 2 ∷ 7 ∷ []) 8 [] hello_frame
