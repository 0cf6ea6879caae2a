-- ===== src/Update/Rules.antt =====
-- How a property of the root goes through the programs of Update/Root.
use kelmor.Base.{if◌then◌else◌, String, Bool, false, ◌⊎◌, inl, inr, none, some, List, [], ◌∷◌}
use kelmor.Update.Root.{
  Root, Fate, works, fails, fails_late, dies, partly, Outcome, done, failed, crashed, Io, resume,
  ◌>>=◌, caught, or_else, act, look, Entry, prune, remove_tree,
}

-- After a program: `Q` with its value where it is done, `I` where it failed or the process died.
abbrev pub Post :
    {A : Type 0} → (A → Root → Type 0) → (Root → Type 0) → Root × List Fate × Outcome A → Type 0
Post Q I (r, fs, done a) = Q a r
Post Q I (r, fs, failed e) = I r
Post Q I (r, fs, crashed) = I r

abbrev pub Holds :
    {A : Type 0} → (Root → Type 0) → Io A → (A → Root → Type 0) → (Root → Type 0) → Type 0
Holds P m Q I = (r : Root) (fs : List Fate) → P r → Post Q I (m r fs)

resume-Post :
    {A B : Type 0} (I : Root → Type 0) (Q : A → Root → Type 0) (R : B → Root → Type 0)
    (x : Root × List Fate × Outcome A) (k : A → Io B)
    → Post Q I x
    → ((a : A) → Holds (Q a) (k a) R I)
    → Post R I (resume x k)
resume-Post I Q R (r, fs, done a) k h f = f a r fs h
resume-Post I Q R (r, fs, failed e) k h f = h
resume-Post I Q R (r, fs, crashed) k h f = h

caught-Post :
    {A : Type 0} (I : Root → Type 0) (Q : A → Root → Type 0) (x : Root × List Fate × Outcome A)
    (h : String → Io A)
    → Post Q I x
    → ((e : String) → Holds I (h e) Q I)
    → Post Q I (caught x h)
caught-Post I Q (r, fs, done a) h p f = p
caught-Post I Q (r, fs, failed e) h p f = f e r fs p
caught-Post I Q (r, fs, crashed) h p f = p

pub Post-map :
    {A : Type 0} (Q Q' : A → Root → Type 0) (I I' : Root → Type 0)
    (x : Root × List Fate × Outcome A)
    → ((a : A) (r : Root) → Q a r → Q' a r)
    → ((r : Root) → I r → I' r)
    → Post Q I x
    → Post Q' I' x
Post-map Q Q' I I' (r, fs, done a) f g h = f a r h
Post-map Q Q' I I' (r, fs, failed e) f g h = g r h
Post-map Q Q' I I' (r, fs, crashed) f g h = g r h

module _ (P I : Root → Type 0) where
  pub Holds-bind :
      {A B : Type 0} (Q : A → Root → Type 0) (R : B → Root → Type 0) (m : Io A) (k : A → Io B)
      → Holds P m Q I
      → ((a : A) → Holds (Q a) (k a) R I)
      → Holds P (m >>= k) R I
  Holds-bind Q R m k h f r fs p = resume-Post I Q R (m r fs) k (h r fs p) f

  pub Holds-act :
      (Q : Unit {0} → Root → Type 0) (f : Root → Root)
      → ((r : Root) → P r → I r)
      → ((r : Root) → P r → I (f r))
      → ((r : Root) → P r → Q tt (f r))
      → Holds P (act f) Q I
  unfolding act
  Holds-act Q f i j q r [] p = q r p
  Holds-act Q f i j q r (works ∷ fs) p = q r p
  Holds-act Q f i j q r (fails e ∷ fs) p = i r p
  Holds-act Q f i j q r (fails_late e ∷ fs) p = j r p
  Holds-act Q f i j q r (dies ∷ fs) p = i r p
  Holds-act Q f i j q r (partly g none ∷ fs) p = i r p
  Holds-act Q f i j q r (partly g (some e) ∷ fs) p = i r p

  pub Holds-look :
      {A : Type 0} (Q : A → Root → Type 0) (g : Root → A)
      → ((r : Root) → P r → I r)
      → ((r : Root) → P r → Q (g r) r)
      → Holds P (look g) Q I
  Holds-look Q g i q =
      Holds-bind (λ u. P) Q (act (λ r. r)) (λ u r fs. (r, fs, done (g r)))
        (Holds-act (λ u. P) (λ r. r) i i (λ r p. p)) (λ u r fs p. q r p)

  pub Holds-or_else :
      {A : Type 0} (Q : A → Root → Type 0) (m : Io A) (h : String → Io A)
      → Holds P m Q I
      → ((e : String) → Holds I (h e) Q I)
      → Holds P (or_else m h) Q I
  Holds-or_else Q m h k f r fs p = caught-Post I Q (m r fs) h (k r fs p) f

  pub Holds-remove_tree :
      (Q : Unit {0} → Root → Type 0) (within : Entry → Bool) (last : Root → Root)
      → ((r : Root) → P r → I r)
      → ((r : Root) (gone : Entry → Bool)
          → P r
          → I (prune (λ e. if within e then gone e else false) r))
      → ((r : Root) → P r → I (last (prune within r)))
      → ((r : Root) → P r → Q tt (last (prune within r)))
      → Holds P (remove_tree within last) Q I
  unfolding remove_tree act
  Holds-remove_tree Q within last i g j q r (partly p none ∷ fs) h = g r p h
  Holds-remove_tree Q within last i g j q r (partly p (some e) ∷ fs) h = g r p h
  Holds-remove_tree Q within last i g j q r [] h = q r h
  Holds-remove_tree Q within last i g j q r (works ∷ fs) h = q r h
  Holds-remove_tree Q within last i g j q r (fails e ∷ fs) h = i r h
  Holds-remove_tree Q within last i g j q r (fails_late e ∷ fs) h = j r h
  Holds-remove_tree Q within last i g j q r (dies ∷ fs) h = i r h

-- What holds of an error as a value.
abbrev pub Either :
    {A : Type 0} → (A → Root → Type 0) → (Root → Type 0) → A ⊎ String → Root → Type 0
Either Q I (inl a) r = Q a r
Either Q I (inr e) r = I r
