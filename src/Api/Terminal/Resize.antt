-- ===== src/Api/Terminal/Resize.antt =====
-- Messages that resize a terminal, and messages that are its input.
use matrisea.Common.{
  ℕ, ◌≤◌, Str, text, false, ◌≡◌, refl, List, [], ◌∷◌, ◌++◌, ok, panic, arith, inl,
}
use matrisea.Go.Strings.{has_prefix}
use matrisea.Go.Strings.Prefix.{has_prefix-append}
use matrisea.Go.Strings.Split.{Lacks, Lacks-append, split-append_sep, split_single}
use matrisea.Go.Strconv.{decimal, max_uint64}
use matrisea.Go.Strconv.RoundTrip.{parse_uint-decimal, decimal-Lacks}
use matrisea.Vmm.Host.{Vmm, Host}
use matrisea.Api.Socket.{Socket, text_message}
use matrisea.Api.Logstream.{ClientMessage}
use matrisea.Api.Terminal.{resize_prefix, resize, with_lines, resize_command, command_of}

-- The message of the client's terminal for its size.
abbrev pub resize_message : ℕ → ℕ → Str
resize_message cols lines = resize_prefix ++ (b' ' ∷ (decimal cols ++ (b' ' ∷ decimal lines)))

-- The resize message that a client sends for a number of columns and lines, each of up to 64 bits,
-- is understood as exactly that size.
pub command_of-resize_message :
    (cols lines : ℕ)
    → cols ≤ max_uint64
    → lines ≤ max_uint64
    → command_of (resize_message cols lines) ≡ ok (resize lines cols)
unfolding command_of
command_of-resize_message cols lines fits_cols fits_lines =
    rw (has_prefix-append resize_prefix (b' ' ∷ (decimal cols ++ (b' ' ∷ decimal lines)))) (
      rw
        (split-append_sep b' ' resize_prefix (decimal cols ++ (b' ' ∷ decimal lines))
          (unfold text in ground arith))
        (rw
          (split-append_sep b' ' (decimal cols) (decimal lines)
            (decimal-Lacks b' ' cols (inl (omega arith))))
          (rw (split_single b' ' (decimal lines) (decimal-Lacks b' ' lines (inl (omega arith)))) (
            rw (parse_uint-decimal cols fits_cols, resize_command)
              (rw (parse_uint-decimal lines fits_lines, with_lines) refl)))))

-- A message that begins like a resize message and holds no space makes the terminal's handler
-- panic.
pub command_of-panic : (w : Str) → Lacks b' ' w → command_of (resize_prefix ++ w) ≡ panic
unfolding command_of
command_of-panic w h = rw (has_prefix-append resize_prefix w) (
    rw
      (split_single b' ' (resize_prefix ++ w)
        (Lacks-append b' ' resize_prefix w (unfold text in ground arith) h))
      refl)

-- Messages that are typed text.
abbrev pub AreInput : List ClientMessage → Type 0
AreInput [] = Unit
AreInput (m ∷ ms) =
    (m.type ≡ text_message) × (has_prefix m.payload resize_prefix ≡ false) × AreInput ms

abbrev pub payloads : List ClientMessage → List Str
payloads [] = []
payloads (m ∷ ms) = m.payload ∷ payloads ms

-- One write for each text, in order, whatever became of those before.
abbrev pub write_all : (S : Socket) → List Str → S.Input → S.Input
write_all S [] i = i
write_all S (p ∷ ps) i = write_all S ps (S.write_process p i).1
