-- ===== src/Paths/Split.antt =====
-- SplitManaged of agent/policy/path.go and its way back.
use Prim.Native.String.{len}
use kelmor.Base.{
  String, ◌⧺◌, true, false, ◌&&◌, ◌||◌, ◌≡◌, refl, sym, ap, ◌∙◌, ◌⊎◌, inl, inr, List, [], ◌∷◌, ◌==◌,
  ltb, ◌≤◌, All, arith, Bool-cases, eq_refl, subst, any,
}
use mathlib.Core.Path.{subst₂}
use text.Mathlib.TextLemmas.{append_assoc}
use kelmor.Paths.Text.{has_prefix, contains, trim_prefix, append-trim_prefix, trim_prefix_miss}
use kelmor.Paths.Policy.{
  ok, ◌>>◌, refuse, refuse-ok, base_of, is_below, candidates, longer, best_root, split_at,
  split_managed,
}

-- What a prefix and a name say of the path that they are split from.
pub record IsSplit (path prefix relative : String) : Type 0 where
  pub whole : prefix ⧺ ("/" ⧺ relative) ≡ path
  pub named : (relative == "") ≡ false
  pub inside : contains relative ".." ≡ false

IsSplit-name :
    (path best rel : String)
    → rel ≡ trim_prefix path (best ⧺ "/")
    → (rel == "" || (rel == path || contains rel "..")) ≡ false
    → IsSplit path best rel
IsSplit-name path best rel e h =
    let moved : (rel == path) ≡ false = ground (arith) in
    let there : has_prefix path (best ⧺ "/") ≡ true =
      elim (Bool-cases (has_prefix path (best ⧺ "/"))) [
        | inl y ↦ y
        | inr n ↦
            let same : rel ≡ path = e ∙ trim_prefix_miss path (best ⧺ "/") n in
            let yes' : (rel == path) ≡ true = subst (λ t. (rel == t) ≡ true) same (eq_refl rel) in
            absurd (cc (moved))
      ] in
    record {
      whole =
          sym (append_assoc best "/" rel)
          ∙ (ap (λ t. (best ⧺ "/") ⧺ t) e ∙ append-trim_prefix path (best ⧺ "/") there);
      named = ground (arith);
      inside = ground (arith);
    }

split_at-IsSplit :
    (path best : String) {b r : String}
    → split_at path best ≡ ok (b, r)
    → (b ≡ best) × ((best == "") ≡ false) × IsSplit path b r
unfolding split_at
split_at-IsSplit path best {b} {r} h =
    let rel : String = trim_prefix path (best ⧺ "/") in
    let h1 =
      refuse-ok (best == "") "path outside approved prefixes"
        (refuse (path == best) "managed path requires a relative name"
          >> (refuse (rel == "" || (rel == path || contains rel ".."))
                "invalid managed relative path"
              >> ok (best, rel)))
        h in
    let h2 =
      refuse-ok (path == best) "managed path requires a relative name"
        (refuse (rel == "" || (rel == path || contains rel "..")) "invalid managed relative path"
          >> ok (best, rel))
        h1.1 in
    let h3 =
      refuse-ok (rel == "" || (rel == path || contains rel "..")) "invalid managed relative path"
        (ok (best, rel)) h2.1 in
    let eb : best ≡ b = cc (h3.1) in
    let er : trim_prefix path (best ⧺ "/") ≡ r = cc (h3.1) in
    (sym eb, h1.0, subst₂ (IsSplit path) eb er (IsSplit-name path best rel refl h3.0))

-- No candidate above the path is longer.
abbrev pub Longest : String → String → List String → Type 0
Longest path best roots =
    All (λ root. is_below path root ≡ true → len (base_of root) ≤ len best) roots

best_root_grows :
    (path : String) (roots : List String) (best : String)
    → len best ≤ len (best_root path roots best)
unfolding best_root longer
best_root_grows path [] best = omega arith
best_root_grows path (root ∷ roots) best =
    ground (arith, best_root_grows path roots (longer path root best))

best_root-Longest :
    (path : String) (roots : List String) (best : String)
    → Longest path (best_root path roots best) roots
unfolding best_root longer
best_root-Longest path [] best = tt
best_root-Longest path (root ∷ roots) best = (
  λ h. ground (arith, best_root_grows path roots (longer path root best)),
  best_root-Longest path roots (longer path root best),
)

longer-cases :
    (path root best : String)
    → (longer path root best ≡ base_of root) ⊎ (longer path root best ≡ best)
unfolding longer
longer-cases path root best =
    elim (Bool-cases (is_below path root && ltb (len best) (len (base_of root)))) [
      | inl y ↦ inl (rw y refl)
      | inr n ↦ inr (rw n refl)
    ]

best_root-cases :
    (path : String) (roots : List String) (best : String)
    → (best_root path roots best ≡ best)
      ⊎ (any (λ root. base_of root == best_root path roots best) roots ≡ true)
unfolding best_root
best_root-cases path [] best = inl refl
best_root-cases path (root ∷ roots) best =
    after (longer-cases path root best) (best_root-cases path roots (longer path root best))
  where
    after :
        {x : String}
        → (longer path root best ≡ base_of root) ⊎ (longer path root best ≡ best)
        → (x ≡ longer path root best) ⊎ (any (λ t. base_of t == x) roots ≡ true)
        → (x ≡ best) ⊎ (any (λ t. base_of t == x) (root ∷ roots) ≡ true)
    after c (inr later) = inr (ground (arith))
    after (inl new) (inl e) = inr (rw (e, new, eq_refl (base_of root)) refl)
    after (inr old) (inl e) = inl (e ∙ old)

-- What SplitManaged gives for a path puts the path together again with a slash between; the name
-- is neither empty nor does it hold ".."; and the prefix is one of the candidates, the longest of
-- those that the path is, or is below.
pub split_managed-IsSplit :
    (path : String) {b r : String}
    → split_managed path ≡ ok (b, r)
    → IsSplit path b r
      × (any (λ root. base_of root == b) candidates ≡ true)
      × Longest path b candidates
unfolding split_managed
split_managed-IsSplit path {b} {r} h =
    let best : String = best_root path candidates "" in
    let (same, some_root, split) = split_at-IsSplit path best h in
    (
      split,
      subst (λ t. any (λ root. base_of root == t) candidates ≡ true) (sym same)
          (candidate (best_root-cases path candidates "") some_root),
      subst (λ t. Longest path t candidates) (sym same) (best_root-Longest path candidates ""),
    )
  where
    candidate :
        {x : String}
        → (x ≡ "") ⊎ (any (λ root. base_of root == x) candidates ≡ true)
        → (x == "") ≡ false
        → any (λ root. base_of root == x) candidates ≡ true
    candidate (inl e) n = absurd (cc (subst (λ t. (t == "") ≡ false) e n))
    candidate (inr y) n = y
