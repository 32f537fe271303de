-- ===== src/Evidence/Order.antt =====
-- src/store-evidence.ts: the order of snapshots by what they know.
use pi_watch.Base.{Option, none, some, ◌≡◌, ◌≢◌, ◌≤◌, refl, arith, ◌∙◌}
use pi_watch.Evidence.Defs.{
  LaunchPhase, CleanupState, cleanup_order, StreamCaptureFacts, ExecutionEvidence,
}
use pi_watch.Evidence.Defs
use pi_watch.Evidence.Extends.{Keeps, StreamExtends, EvidenceExtends}

pub Keeps-refl {ℓ} : {A : Type ℓ} (a : Option A) → Keeps a a
Keeps-refl none = tt
Keeps-refl (some a) = refl

pub Keeps-trans {ℓ} : {A : Type ℓ} (a b c : Option A) → Keeps a b → Keeps b c → Keeps a c
Keeps-trans none b c h k = tt
Keeps-trans (some a) none c h k = cc
Keeps-trans (some a) (some b) c h k = k ∙ h

StreamExtends-refl : (a : StreamCaptureFacts) → StreamExtends a a
StreamExtends-refl a = record {
  available = Keeps-refl a.available;
  truncated = λ h. h;
  incomplete = λ h. h;
  open_at_cutover = λ h. h;
}

StreamExtends-trans :
    (a b c : StreamCaptureFacts) → StreamExtends a b → StreamExtends b c → StreamExtends a c
StreamExtends-trans a b c h k = record {
  available = Keeps-trans a.available b.available c.available h.available k.available;
  truncated = λ t. k.truncated (h.truncated t);
  incomplete = λ t. k.incomplete (h.incomplete t);
  open_at_cutover = λ t. k.open_at_cutover (h.open_at_cutover t);
}

pub EvidenceExtends-refl : (a : ExecutionEvidence) → EvidenceExtends a a
EvidenceExtends-refl a = record {
  launch = λ h. refl;
  code = Keeps-refl a.shell_code;
  signal = Keeps-refl a.shell_signal;
  term = Keeps-refl a.cleanup_term_observation;
  kill = λ h. h;
  cancellation = λ h. h;
  deadline = λ h. h;
  not_required_final = λ h. h;
  cleanup_forward = λ h. omega arith;
  stdout = StreamExtends-refl a.stdout;
  stderr = StreamExtends-refl a.stderr;
}

phase_trans :
    (a b c : LaunchPhase)
    → (a ≢ Defs.unknown → b ≡ a)
    → (b ≢ Defs.unknown → c ≡ b)
    → a ≢ Defs.unknown
    → c ≡ a
phase_trans a b c h k known = ground (arith, h known, k)

cleanup_trans :
    (a b c : CleanupState)
    → (b ≢ Defs.not_required → cleanup_order a ≤ cleanup_order b)
    → (c ≢ Defs.not_required → cleanup_order b ≤ cleanup_order c)
    → (b ≡ Defs.not_required → c ≡ Defs.not_required)
    → c ≢ Defs.not_required
    → cleanup_order a ≤ cleanup_order c
cleanup_trans a b c h k stays n = ground (arith, h, k n, stays)

pub EvidenceExtends-trans :
    (a b c : ExecutionEvidence) → EvidenceExtends a b → EvidenceExtends b c → EvidenceExtends a c
EvidenceExtends-trans a b c h k = record {
  launch = phase_trans a.launch b.launch c.launch h.launch k.launch;
  code = Keeps-trans a.shell_code b.shell_code c.shell_code h.code k.code;
  signal = Keeps-trans a.shell_signal b.shell_signal c.shell_signal h.signal k.signal;
  term =
      Keeps-trans a.cleanup_term_observation b.cleanup_term_observation c.cleanup_term_observation
        h.term k.term;
  kill = λ t. k.kill (h.kill t);
  cancellation = λ t. k.cancellation (h.cancellation t);
  deadline = λ t. k.deadline (h.deadline t);
  not_required_final = λ t. k.not_required_final (h.not_required_final t);
  cleanup_forward =
      cleanup_trans a.cleanup_state b.cleanup_state c.cleanup_state h.cleanup_forward
        k.cleanup_forward k.not_required_final;
  stdout = StreamExtends-trans a.stdout b.stdout c.stdout h.stdout k.stdout;
  stderr = StreamExtends-trans a.stderr b.stderr c.stderr h.stderr k.stderr;
}
