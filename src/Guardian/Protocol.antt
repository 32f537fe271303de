-- ===== src/Guardian/Protocol.antt =====
-- src/guardian-protocol.ts: the messages between runner and guardian, and which values are one.
use pi_watch.Base.{ℕ, ℤ, Text, text, text_eq, Bool, false, Option, none, some, List, [], ◌∷◌, any}
use pi_watch.JobTypes.Validate.{JsValue, string}
use pi_watch.Evidence.Defs.{CleanupTermObservation}

pub record HelloReply : Type 0 where
  pub runner_pid : ℕ
  pub command : Text
  pub cwd : Text
  pub deadline_at_ms : ℕ
  pub ps_path : Text
  pub sh_path : Text

pub data ShellErrorReason : Type 0 where
  spawn expired_before_spawn : ShellErrorReason

pub data State : Type 0 where
  starting ready granted shell_spawned cleaning exited refused : State

pub data GuardianMessage : Type 0 where
  hello : ℕ → GuardianMessage
  hello_reply : HelloReply → GuardianMessage
  topology : Bool → GuardianMessage
  grant : GuardianMessage
  protocol_violation : State → GuardianMessage
  shell_started : ℕ → GuardianMessage
  shell_error : ShellErrorReason → GuardianMessage
  shell_exit : Option ℤ → Option Text → GuardianMessage
  cleanup_term : CleanupTermObservation → GuardianMessage
  cleanup_kill_intent : GuardianMessage
  deadline : GuardianMessage

-- `TYPES`
abbrev pub types : List Text
types =
    text "hello"
    ∷ text "hello_reply"
    ∷ text "topology"
    ∷ text "grant"
    ∷ text "protocol_violation"
    ∷ text "shell_spawned"
    ∷ text "shell_error"
    ∷ text "shell_exit"
    ∷ text "cleanup_term"
    ∷ text "cleanup_kill_intent"
    ∷ text "deadline"
    ∷ []

-- The property `type` of a message.
abbrev pub type_of : GuardianMessage → Text
type_of (hello pid) = text "hello"
type_of (hello_reply reply) = text "hello_reply"
type_of (topology ok) = text "topology"
type_of grant = text "grant"
type_of (protocol_violation state) = text "protocol_violation"
type_of (shell_started pid) = text "shell_spawned"
type_of (shell_error reason) = text "shell_error"
type_of (shell_exit code signal) = text "shell_exit"
type_of (cleanup_term observation) = text "cleanup_term"
type_of cleanup_kill_intent = text "cleanup_kill_intent"
type_of deadline = text "deadline"

-- `isGuardianMessage` on a value that is no object (`none`), or on the property `type` of one.
unfoldable pub is_guardian_message : Option JsValue → Bool
is_guardian_message (some (string t)) = any (text_eq t) types
is_guardian_message (some _) = false
is_guardian_message none = false
