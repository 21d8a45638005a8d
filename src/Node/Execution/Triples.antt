-- ===== src/Node/Execution/Triples.antt =====
-- What an execution ensures: rules for a condition on the machine and the fork before a call, and one on its
-- value and what follows after it, where the call is done.
use trinci.Base.{Bool, true, false, ◌≡◌, refl, Option, none, some, if◌then◌else◌}
use trinci.Base.Outcome.{Outcome, returns, panics}
use trinci.Node.Identity.{Identity}
use trinci.Node.Errors.{WasmError, NodeError}
use trinci.Node.Execution.State.{
  reads, Reply, Run, Setting, World, ◌>>=◌, continue, found, give, lift,
}
use trinci.Node.Database.{Database}
use trinci.Node.Execution.Bulks.{text_of}

module _ ⦃i : Identity⦄ ⦃e : Setting⦄ where
  abbrev pub Post : {A : Type 0} → (A → World e → Type 0) → Reply e A → Type 0
  Post Q (Reply.done a s) = Q a s
  Post Q (Reply.failed error s) = Unit
  Post Q Reply.crashed = Unit

  pub record Triple {A : Type 0} (P : World e → Type 0) (m : Run e A) (Q : A → World e → Type 0)
      : Type 0 where
    pub at : (s : World e) → P s → Post Q (m s)

module _ ⦃i : Identity⦄ ⦃e : Setting⦄ {A : Type 0} {P : World e → Type 0} where
  pub Triple-give :
      {Q : A → World e → Type 0} (a : A) → ((s : World e) → P s → Q a s) → Triple P (give a) Q
  Triple-give a h = record { at = h }

  pub Triple-weaken :
      {Q R : A → World e → Type 0} (m : Run e A)
      → Triple P m Q
      → ((a : A) (s : World e) → Q a s → R a s)
      → Triple P m R
  Triple-weaken {Q} {R} m h w = record { at = λ s p. weaken (m s) (h.at s p) }
    where
      weaken : (r : Reply e A) → Post Q r → Post R r
      weaken (Reply.done a s) q = w a s q
      weaken (Reply.failed error s) q = tt
      weaken Reply.crashed q = tt

  pub Triple-if :
      {Q : A → World e → Type 0} (b : Bool) (m n : Run e A)
      → (b ≡ true → Triple P m Q)
      → (b ≡ false → Triple P n Q)
      → Triple P (if b then m else n) Q
  Triple-if true m n h k = h refl
  Triple-if false m n h k = k refl

  -- The state before the call, kept with what follows from it.
  pub Triple-from :
      {Q : A → World e → Type 0} (m : Run e A)
      → Triple P m Q
      → Triple P m (λ a s. Q a s × ((before : World e) × P before × (m before ≡ Reply.done a s)))
  Triple-from {Q} m h = record { at = λ s p. from s p (m s) refl (h.at s p) }
    where
      from :
          (s : World e)
          → P s
          → (r : Reply e A) → m s ≡ r
          → Post Q r
          → Post (λ a s'. Q a s' × ((before : World e) × P before × (m before ≡ Reply.done a s'))) r
      from s p (Reply.done a s') eq q = (q, (s, p, eq))
      from s p (Reply.failed error s') eq q = tt
      from s p Reply.crashed eq q = tt

  -- The condition before the call, given to whatever proves the triple.
  pub Triple-pre :
      {Q : A → World e → Type 0} (m : Run e A) → ((s : World e) → P s → Triple P m Q) → Triple P m Q
  Triple-pre m h = record { at = λ s p. (h s p).at s p }

module _ ⦃i : Identity⦄ ⦃e : Setting⦄ where
  continued :
      {A B : Type 0} {Q : A → World e → Type 0} {R : B → World e → Type 0} (r : Reply e A)
      (next : A → Run e B)
      → Post Q r
      → ((a : A) → Triple (Q a) (next a) R)
      → Post R (continue r next)
  continued (Reply.done a s) next q h = (h a).at s q
  continued (Reply.failed error s) next q h = tt
  continued Reply.crashed next q h = tt

module _ ⦃i : Identity⦄ ⦃e : Setting⦄ {A B : Type 0} {P : World e → Type 0} where
  pub Triple-bind :
      {R : B → World e → Type 0} (Q : A → World e → Type 0) (m : Run e A) (next : A → Run e B)
      → Triple P m Q
      → ((a : A) → Triple (Q a) (next a) R)
      → Triple P (m >>= next) R
  unfolding ◌>>=◌
  Triple-bind Q m next h k = record { at = λ s p. continued (m s) next (h.at s p) k }

  -- A value that may panic or be missing changes nothing.
  pub Triple-lift :
      {R : B → World e → Type 0} (o : Outcome A) (next : A → Run e B)
      → ((a : A) → Triple P (next a) R)
      → Triple P (lift o >>= next) R
  unfolding ◌>>=◌
  Triple-lift (returns a) next h = h a
  Triple-lift panics next h = record { at = λ s p. tt }

  pub Triple-found :
      {R : B → World e → Type 0} (o : Option A) (error : NodeError) (next : A → Run e B)
      → ((a : A) → Triple P (next a) R)
      → Triple P (found o error >>= next) R
  unfolding ◌>>=◌
  Triple-found (some a) error next h = h a
  Triple-found none error next h = record { at = λ s p. tt }

module _ ⦃i : Identity⦄ ⦃e : Setting⦄ where
  -- The text of an error changes nothing.
  pub Triple-text_of :
      (P : World e → Type 0) (error : WasmError) → Triple P (text_of error) (λ a. P)
  Triple-text_of P error = Triple-lift _ _ (λ text. Triple-give _ (λ s p. p))

  any_reply : {A : Type 0} (r : Reply e A) → Post (λ a s. Unit) r
  any_reply (Reply.done a s) = tt
  any_reply (Reply.failed error s) = tt
  any_reply Reply.crashed = tt

  pub Triple-any : {A : Type 0} {P : World e → Type 0} (m : Run e A) → Triple P m (λ a s. Unit)
  Triple-any m = record { at = λ s p. any_reply (m s) }

  -- What is read is a value of some database.
  pub Triple-read :
      {A : Type 0} (f : Database e.indexes → A)
      → Triple (λ s. Unit {0}) (reads f) (λ a s. (db : Database e.indexes) × (a ≡ f db))
  unfolding reads
  Triple-read f = record { at = λ s p. (e.forks.view s.fork, refl) }

  -- A fact stays one.
  fact_reply : {A : Type 0} (F : Type 0) (r : Reply e A) → F → Post (λ a s. F) r
  fact_reply F (Reply.done a s) f = f
  fact_reply F (Reply.failed error s) f = tt
  fact_reply F Reply.crashed f = tt

  pub Triple-fact : {A : Type 0} (F : Type 0) (m : Run e A) → Triple (λ s. F) m (λ a s. F)
  Triple-fact F m = record { at = λ s f. fact_reply F (m s) f }
