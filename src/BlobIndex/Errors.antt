-- ===== src/BlobIndex/Errors.antt =====
-- pkg/blobindex/shardeddagindex.go: the errors of the extraction of an index, each with its reason.
use indexing_service.Prelude.{[], ◌∷◌, ◌++◌, Bytes}
use indexing_service.Result.{Err, wrapped, unknown_format, decode_failure}

abbrev pub new_unknown_format_error : Err → Err
new_unknown_format_error reason = wrapped unknown_format reason

abbrev pub new_decode_failure_error : Err → Err
new_decode_failure_error reason = wrapped decode_failure reason

-- The values of the interface ExtractError, and their methods Unwrap and Error over the texts of
-- their reasons.
pub data ExtractError : Err → Type 0 where
  an_unknown_format : (reason : Err) → ExtractError (wrapped unknown_format reason)
  a_decode_failure : (reason : Err) → ExtractError (wrapped decode_failure reason)

unfoldable pub unwrap : {e : Err} → ExtractError e → Err
unwrap (an_unknown_format reason) = reason
unwrap (a_decode_failure reason) = reason

unfoldable pub error : (Err → Bytes) → {e : Err} → ExtractError e → Bytes
error text (an_unknown_format reason) =
    (b'u' ∷ b'n' ∷ b'k' ∷ b'n' ∷ b'o' ∷ b'w' ∷ b'n' ∷ b' ' ∷ b'f' ∷ b'o' ∷ b'r' ∷ b'm' ∷ b'a' ∷ b't'
      ∷ b':' ∷ b' ' ∷ [])
    ++ text reason
error text (a_decode_failure reason) =
    (b'd' ∷ b'e' ∷ b'c' ∷ b'o' ∷ b'd' ∷ b'e' ∷ b' ' ∷ b'f' ∷ b'a' ∷ b'i' ∷ b'l' ∷ b'u' ∷ b'r' ∷ b'e'
      ∷ b':' ∷ b' ' ∷ [])
    ++ text reason
