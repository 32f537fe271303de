-- ===== src/Capture/Truth.antt =====
-- src/output-capture.ts: what the closure receipt of a capture says is so.
use pi_watch.Base.{
  ℕ, ◌≤◌, ◌<◌, true, false, none, List, [], ◌∷◌, take, take-take, length, ◌≡◌, ◌≢◌, refl, ap, ◌∙◌,
  arith, Bool-cases,
}
use pi_watch.Capture.Machine.{
  output_capture_limit, FileIdentity, capture_error, ClosureReceipt, Source, Capture, is_idle,
}
use pi_watch.Capture.Receipt.{is_incoherent}
use pi_watch.Capture.Seal.{Answers, closure_receipt}
use pi_watch.Capture.Steps.{IsWell}

take-all : (xs : List ℕ) → take (length xs) xs ≡ xs
take-all [] = refl
take-all (x ∷ xs) = ap (λ l. x ∷ l) (take-all xs)

-- A receipt about a capture that heard the bytes `h` and wrote the bytes `raw`.
pub record TellsTruth (h raw : List ℕ) (identity : FileIdentity) (r : ClosureReceipt) : Type 0 where
  pub size : r.retained_bytes ≡ length raw
  pub quota : length raw ≤ output_capture_limit
  pub first : raw ≡ take (length raw) h
  pub entire : r.reason ≢ capture_error → raw ≡ take output_capture_limit h
  pub cut : r.truncated ≡ true → output_capture_limit < length h
  pub coherent : is_incoherent r ≡ false
  pub dev : r.raw_dev ≡ identity.dev
  pub ino : r.raw_ino ≡ identity.ino

prefix-prefix :
    (raw storage h : List ℕ)
    → raw ≡ take (length raw) storage
    → storage ≡ take (length storage) h
    → length raw ≤ length storage
    → raw ≡ take (length raw) h
prefix-prefix raw storage h first stored fewer =
    first ∙ ap (λ xs. take (length raw) xs) stored ∙ take-take (length raw) (length storage) h fewer

-- Once the pump rests, what was stored is written unless something was lost.
length-raw :
    (h : List ℕ) (c : Capture)
    → IsWell h c
    → is_idle c.pump ≡ true
    → c.result ≡ none
    → c.capture_loss ≡ false
    → length c.raw ≡ length c.storage
length-raw h c s rest new whole =
    s.pumped.quiet (ground (arith, rest)) whole (ground (arith, s.kept.unlost, new, whole))

raw-entire :
    (h : List ℕ) (c : Capture)
    → IsWell h c
    → is_idle c.pump ≡ true
    → c.result ≡ none
    → c.capture_loss ≡ false
    → c.raw ≡ take output_capture_limit h
raw-entire h c s rest new whole =
    s.kept.written
    ∙ ap (λ n. take n c.storage) (length-raw h c s rest new whole)
    ∙ take-all c.storage
    ∙ s.kept.whole whole

truncated-full :
    (h : List ℕ) (c : Capture)
    → IsWell h c
    → is_idle c.pump ≡ true
    → c.result ≡ none
    → c.capture_loss ≡ false
    → c.overflow_observed ≡ true
    → length c.raw ≡ output_capture_limit
truncated-full h c s rest new whole over =
    length-raw h c s rest new whole ∙ (s.kept.cut_full over).0

pub closure_receipt-TellsTruth :
    (h : List ℕ) (source : Source) (answers : Answers) (identity : FileIdentity) (c : Capture)
    → IsWell h c
    → is_idle c.pump ≡ true
    → c.result ≡ none
    → TellsTruth h c.raw identity (closure_receipt source answers identity c)
unfolding closure_receipt is_incoherent
closure_receipt-TellsTruth h source answers identity c s rest new = record {
  size = refl;
  quota = omega (arith, s.kept.fewer, s.kept.bounded);
  first = prefix-prefix c.raw c.storage h s.kept.written s.kept.stored s.kept.fewer;
  entire = λ kept. raw-entire h c s rest new (ground (arith, kept, Bool-cases c.capture_loss));
  cut = λ h. ground (arith, s.kept.cut_full, h);
  coherent = ground (arith, truncated-full h c s rest new);
  dev = refl;
  ino = refl;
}
