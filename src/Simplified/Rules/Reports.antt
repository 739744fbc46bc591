-- ===== src/Simplified/Rules/Reports.antt =====
-- What addSuppression changes in a rule, and what it leaves.
use mathlib.Core.Path.{subst}
use lc_extension.Base.{
  String, ◌==◌, ◌≡◌, refl, sym, ap, ◌∙◌, Bool, true, false, Option, none, some, arith, eq_iff,
  if◌then◌else◌,
}
use lc_extension.Common.Value.{
  Value, Values, Fields, nil, bool, number, text, texts, list, dicts, object, dict, empty, item,
  end, field, get,
}
use lc_extension.Simplified.Rules.Rewriting.{
  rewritten, put, suppression, is_report, asserted_text, suppress_report, suppress_one, both,
  suppress_all, with_respond, suppress_in, add_suppression,
}

get-put :
    (k j : String) (v : Value) (fs : Fields) → get j (put k v fs) ≡ (if k == j then v else get j fs)
unfolding get put
get-put k j v end = refl
get-put k j v (field i w fs) = ground (arith, eq_iff k j, eq_iff i k, eq_iff i j, get-put k j v fs)

-- A report and what became of it: its suppression is new, all else as it was.
abbrev pub Report : String → Fields → Value → Type 0
Report suppression_time fs v =
    (name : String) × (fs' : Fields) × (v ≡ object fs')
    × (get "name" fs ≡ text name)
    × (get "suppression" fs' ≡ suppression name suppression_time)
    × ((k : String) → ("suppression" == k) ≡ false → get k fs' ≡ get k fs)

-- An action of a rule and what became of it
abbrev pub Rewrites : String → Value → Value → Type 0
Rewrites suppression_time (object fs) v =
    if is_report (get "action" fs) then Report suppression_time fs v else (v ≡ object fs)
Rewrites suppression_time w v = v ≡ w

-- The same of a list, item by item
abbrev pub RewritesAll : String → Values → Values → Type 0
RewritesAll suppression_time empty empty = Unit
RewritesAll suppression_time (item v vs) (item w ws) =
    Rewrites suppression_time v w × RewritesAll suppression_time vs ws
RewritesAll suppression_time _ _ = ⊥

suppress_report-Report :
    (suppression_time : String) (fs : Fields) (name : Value) {v : Value}
    → get "name" fs ≡ name
    → suppress_report suppression_time fs (asserted_text name) ≡ some v
    → Report suppression_time fs v
unfolding suppress_report
suppress_report-Report suppression_time fs (text t) is h = (
  t,
  put "suppression" (suppression t suppression_time) fs,
  cc,
  is,
  get-put "suppression" "suppression" (suppression t suppression_time) fs,
  λ k other.
      get-put "suppression" k (suppression t suppression_time) fs
      ∙ ap (λ b. if b then suppression t suppression_time else get k fs) other,
)
suppress_report-Report suppression_time fs nil is h = cc
suppress_report-Report suppression_time fs (bool b) is h = cc
suppress_report-Report suppression_time fs (number n) is h = cc
suppress_report-Report suppression_time fs (texts ts) is h = cc
suppress_report-Report suppression_time fs (list vs) is h = cc
suppress_report-Report suppression_time fs (dicts vs) is h = cc
suppress_report-Report suppression_time fs (object gs) is h = cc
suppress_report-Report suppression_time fs (dict gs) is h = cc

suppress_object :
    (suppression_time : String) (fs : Fields) (reports : Bool) {v : Value}
    → (if reports
        then suppress_report suppression_time fs (asserted_text (get "name" fs))
        else some (object fs))
      ≡ some v
    → (if reports then Report suppression_time fs v else (v ≡ object fs))
suppress_object suppression_time fs true h = suppress_report-Report suppression_time fs _ refl h
suppress_object suppression_time fs false h = cc

suppress_one-Rewrites :
    (suppression_time : String) (w : Value) {v : Value}
    → suppress_one suppression_time w ≡ some v
    → Rewrites suppression_time w v
unfolding suppress_one
suppress_one-Rewrites suppression_time (object fs) h =
    suppress_object suppression_time fs (is_report (get "action" fs)) h
suppress_one-Rewrites suppression_time nil h = cc
suppress_one-Rewrites suppression_time (bool b) h = cc
suppress_one-Rewrites suppression_time (number n) h = cc
suppress_one-Rewrites suppression_time (text t) h = cc
suppress_one-Rewrites suppression_time (texts ts) h = cc
suppress_one-Rewrites suppression_time (list vs) h = cc
suppress_one-Rewrites suppression_time (dicts vs) h = cc
suppress_one-Rewrites suppression_time (dict fs) h = cc

both-eq-some :
    (v : Option Value) (vs : Option Values) {ws : Values}
    → both v vs ≡ some ws
    → (u : Value) × (us : Values) × (v ≡ some u) × (vs ≡ some us) × (item u us ≡ ws)
unfolding both
both-eq-some (some u) (some us) h = (u, us, refl, refl, cc)
both-eq-some none vs h = cc
both-eq-some (some u) none h = cc

suppress_all-RewritesAll :
    (suppression_time : String) (vs : Values) {ws : Values}
    → suppress_all suppression_time vs ≡ some ws
    → RewritesAll suppression_time vs ws
unfolding suppress_all
suppress_all-RewritesAll suppression_time empty h =
    subst (RewritesAll suppression_time empty) (let e : empty ≡ _ = cc in e) tt
suppress_all-RewritesAll suppression_time (item v vs) h =
    let (u, us, one, rest, split) = both-eq-some _ _ h in
    subst (RewritesAll suppression_time (item v vs)) split (
      suppress_one-Rewrites suppression_time v one,
      suppress_all-RewritesAll suppression_time vs rest,
    )

with_respond-eq-rewritten :
    (fs : Fields) (vs : Option Values) {fs' : Fields}
    → with_respond fs vs ≡ rewritten fs'
    → (ws : Values) × (vs ≡ some ws) × (put "respond" (list ws) fs ≡ fs')
unfolding with_respond
with_respond-eq-rewritten fs (some ws) h = (ws, refl, cc)
with_respond-eq-rewritten fs none h = cc

suppress_in-eq-rewritten :
    (suppression_time : String) (fs : Fields) (respond : Value) {fs' : Fields}
    → suppress_in suppression_time fs respond ≡ rewritten fs'
    → (vs ws : Values) × (respond ≡ list vs)
      × (suppress_all suppression_time vs ≡ some ws)
      × (put "respond" (list ws) fs ≡ fs')
unfolding suppress_in
suppress_in-eq-rewritten suppression_time fs (list (item v vs)) h =
    let (ws, all, at) =
      with_respond-eq-rewritten fs (suppress_all suppression_time (item v vs)) h in
    (item v vs, ws, refl, all, at)
suppress_in-eq-rewritten suppression_time fs (list empty) h = cc
suppress_in-eq-rewritten suppression_time fs (dicts vs) h = cc
suppress_in-eq-rewritten suppression_time fs nil h = cc
suppress_in-eq-rewritten suppression_time fs (bool b) h = cc
suppress_in-eq-rewritten suppression_time fs (number n) h = cc
suppress_in-eq-rewritten suppression_time fs (text t) h = cc
suppress_in-eq-rewritten suppression_time fs (texts ts) h = cc
suppress_in-eq-rewritten suppression_time fs (object gs) h = cc
suppress_in-eq-rewritten suppression_time fs (dict gs) h = cc

-- If addSuppression rewrites a rule, the rule's response is a list, and it becomes a list in which
-- every report has the suppression with its own name and the given time, and is else as it was;
-- every other action, and every other entry of the rule, is as it was.
pub add_suppression_lem :
    (fs fs' : Fields) (suppression_time : String)
    → add_suppression (some fs) suppression_time ≡ rewritten fs'
    → (vs ws : Values) × (get "respond" fs ≡ list vs)
      × (get "respond" fs' ≡ list ws)
      × RewritesAll suppression_time vs ws
      × ((k : String) → ("respond" == k) ≡ false → get k fs' ≡ get k fs)
unfolding add_suppression
add_suppression_lem fs fs' suppression_time h =
    let (vs, ws, is, all, at) = suppress_in-eq-rewritten suppression_time fs (get "respond" fs) h in
    (
      vs,
      ws,
      is,
      ap (get "respond") (sym at) ∙ get-put "respond" "respond" (list ws) fs,
      suppress_all-RewritesAll suppression_time vs all,
      λ k other.
          ap (get k) (sym at)
          ∙ get-put "respond" k (list ws) fs
          ∙ ap (λ b. if b then list ws else get k fs) other,
    )
