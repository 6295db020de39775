-- ===== src/StdioRedirecting.antt =====
-- tracer/stdio_redirecting.rs: the streams of the tested script, relayed and, where a test asks for it,
-- captured. Pipes and threads are left out: a stream is the list of the chunks that `read` returns.
use check_protocols.Prelude.{
  ◌≡◌, refl, ◌∙◌, ◌≢◌, Bool, Option, none, some, List, [], ◌∷◌, ◌++◌, append_assoc, append-nil,
  if◌then◌else◌,
}
use check_protocols.Prelude.Text.{Bytes, codes}

pub data StreamType : Type 0 where
  stdout_stream stderr_stream : StreamType

unfoldable pub stream_name : StreamType → Bytes
stream_name stdout_stream = codes "stdout"
stream_name stderr_stream = codes "stderr"

pub record Redirect : Type 0 where
  pub stream_type : StreamType
  pub captured : Option Bytes

pub record Redirector : Type 0 where
  pub stdout : Redirect
  pub stderr : Redirect

pub record Capture : Type 0 where
  pub stdout : Bool
  pub stderr : Bool

new_capturing : StreamType → Redirect
new_capturing t = record { stream_type = t; captured = some [] }

new_non_capturing : StreamType → Redirect
new_non_capturing t = record { stream_type = t; captured = none }

unfoldable pub new_redirector : Capture → Redirector
unfolding new_capturing new_non_capturing
new_redirector capture = record {
  stdout = if capture.stdout then new_capturing stdout_stream else new_non_capturing stdout_stream;
  stderr = if capture.stderr then new_capturing stderr_stream else new_non_capturing stderr_stream;
}

capture_chunk : Bytes → Option Bytes → Option Bytes
capture_chunk chunk none = none
capture_chunk chunk (some captured) = some (captured ++ chunk)

-- The loop of the relay thread on the chunks that are read. An empty chunk is the end of the stream.
-- It returns what was written to the program's own stream, and what was captured.
unfoldable pub relay : List Bytes → Bytes → Option Bytes → Bytes × Option Bytes
unfolding capture_chunk
relay [] written captured = (written, captured)
relay ([] ∷ chunks) written captured = (written, captured)
relay ((c ∷ chunk) ∷ chunks) written captured =
    relay chunks (written ++ (c ∷ chunk)) (capture_chunk (c ∷ chunk) captured)

pub concat : List Bytes → Bytes
concat [] = []
concat (s ∷ ss) = s ++ concat ss

-- `read` returned these chunks before the end of the stream
unfoldable pub IsOpen : List Bytes → Type 0
IsOpen [] = Unit
IsOpen (chunk ∷ chunks) = (chunk ≢ []) × IsOpen chunks

-- Nothing of a captured stream is lost or reordered: up to the empty chunk that is the end of the
-- stream, what the relay thread has captured, and what it has written, is what was there before
-- and then the chunks in the order in which they were read. Chunks behind the end play no part.
pub relay_lem :
    (chunks later : List Bytes) (written captured : Bytes)
    → IsOpen chunks
    → relay (chunks ++ [] ∷ later) written (some captured)
      ≡ (written ++ concat chunks, some (captured ++ concat chunks))
unfolding relay concat capture_chunk IsOpen
relay_lem [] later written captured open_chunks = rw (append-nil written, append-nil captured)
relay_lem ([] ∷ chunks) later written captured (nonempty, rest) = absurd (nonempty refl)
relay_lem ((c ∷ chunk) ∷ chunks) later written captured (nonempty, rest) =
    relay_lem chunks later (written ++ (c ∷ chunk)) (captured ++ (c ∷ chunk)) rest
    ∙ rw (
      append_assoc written (c ∷ chunk) (concat chunks),
      append_assoc captured (c ∷ chunk) (concat chunks),
    )
