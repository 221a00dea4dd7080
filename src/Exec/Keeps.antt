-- ===== src/Exec/Keeps.antt =====
-- Invariants of actions, whether they return or raise: `P` before gives `Q` after.
use campus_pilots.Exec.{Result, ok, raised, Exec, resume, settle, atomically, ◌>>=◌}

module _ {ℓ κ μ} {S : Type ℓ} {A : Type κ} where
  abbrev pub Leads : (S → Type μ) → (S → Type μ) → Exec S A → Type (ℓ ⊔ μ)
  Leads P Q m = (w : S) → P w → Q (m w).1

  abbrev pub Keeps : (S → Type μ) → Exec S A → Type (ℓ ⊔ μ)
  Keeps P m = Leads P P m

  settle-Leads :
      (P Q : S → Type μ) (r : Result A) (written before : S)
      → Q written
      → Q before
      → Q (settle r written before).1
  settle-Leads P Q (ok a) written before h k = h
  settle-Leads P Q (raised e) written before h k = k

  pub atomically-Leads :
      (P Q : S → Type μ) (m : Exec S A)
      → ((w : S) → P w → Q w)
      → Leads P Q m
      → Leads P Q (atomically m)
  atomically-Leads P Q m weaker k w h = settle-Leads P Q (m w).0 (m w).1 w (k w h) (weaker w h)

module _ {ℓ κ κ' μ} {S : Type ℓ} {A : Type κ} {B : Type κ'} where
  resume-Leads :
      (P Q : S → Type μ) (r : Result A) (f : A → Exec S B)
      → ((w : S) → P w → Q w)
      → ((a : A) → Leads P Q (f a))
      → (w : S) → P w
      → Q (resume r w f).1
  resume-Leads P Q (ok a) f weaker k w h = k a w h
  resume-Leads P Q (raised e) f weaker k w h = weaker w h

  pub bind-Leads :
      (P R Q : S → Type μ) (m : Exec S A) (f : A → Exec S B)
      → ((w : S) → R w → Q w)
      → Leads P R m
      → ((a : A) → Leads R Q (f a))
      → Leads P Q (m >>= f)
  bind-Leads P R Q m f weaker km kf w h = resume-Leads R Q (m w).0 f weaker kf (m w).1 (km w h)
