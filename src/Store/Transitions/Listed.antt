-- ===== src/Store/Transitions/Listed.antt =====
-- The pages of `ListTransitions`, one after the other.
use chamicore.Prelude.{
  ℕ, zero, suc, ◌+◌, ◌*◌, ◌≤◌, ◌≡◌, refl, sym, ◌∙◌, ap, Bool, true, false, List, [], ◌∷◌, ◌++◌,
  none, arith, Result, ok, and_then, length, count_if,
}
use chamicore.Prelude.Int.{ℤ, pos, negsuc}
use chamicore.Prelude.Sort.{
  take, drop, take-drop, drop-drop, drop-length, length-sort_by, IsSorted, count_if-sort_by,
  sort_by-IsSorted,
}
use chamicore.Text.{=ₛ_iff}
use chamicore.Text.Order.{<ₛ_trans, <ₛ_irrefl, <ₛ_total}
use chamicore.Dict.{Dict}
use chamicore.GoError.{GoError}
use chamicore.Engine.Types.{Transition}
use chamicore.Store.Transitions.{TransitionTables, TransitionSession}
use chamicore.Store.Transitions.Query.{
  normalize_transition_page_limit, values, is_newer, newest_first, list_transitions,
}

pub normalize_transition_page_limit-bounds :
    (limit : ℤ)
    → (1 ≤ normalize_transition_page_limit limit) × (normalize_transition_page_limit limit ≤ 1000)
unfolding normalize_transition_page_limit
normalize_transition_page_limit-bounds (pos n) = ground arith
normalize_transition_page_limit-bounds (negsuc n) = ground arith

is_newer-asym : (a b : Transition) → is_newer a b ≡ true → is_newer b a ≡ false
is_newer-asym a b h = ground (arith, h, <ₛ_trans a.id b.id a.id, <ₛ_irrefl a.id)

is_newer-cotrans :
    (a b c : Transition) → is_newer c b ≡ false → is_newer b a ≡ false → is_newer c a ≡ false
is_newer-cotrans a b c h k = ground (
  arith,
  h,
  k,
  <ₛ_trans a.id c.id b.id,
  <ₛ_total a.id b.id,
  <ₛ_total b.id c.id,
  =ₛ_iff b.id c.id,
  =ₛ_iff a.id b.id,
)

-- A page of the rows from an offset on.
list_transitions-page :
    (session : TransitionSession) (limit : ℤ) (offset : ℕ) (db : TransitionTables)
    → session.count ≡ none
    → session.query ≡ none
    → list_transitions session limit (pos offset) db
      ≡ ok (
        take (normalize_transition_page_limit limit) (drop offset (newest_first db.transitions)),
        length db.transitions,
      )
unfolding list_transitions
list_transitions-page session limit offset db c q = ground (arith, c, q)

-- A client that reads so many pages, each behind the last.
abbrev pub pages :
    TransitionSession → ℤ → ℕ → ℕ → TransitionTables → Result GoError (List Transition)
pages session limit zero offset db = ok []
pages session limit (suc n) offset db =
    and_then (list_transitions session limit (pos offset) db) (λ (items, total).
      and_then (pages session limit n (offset + normalize_transition_page_limit limit) db)
        (λ rest. ok (items ++ rest)))

length-values : {V : Type 0} (m : Dict V) → length (values m) ≡ length m
length-values [] = refl
length-values ((k, v) ∷ m) = ap suc (length-values m)

length-newest_first : (m : Dict Transition) → length (newest_first m) ≡ length m
unfolding newest_first
length-newest_first m = length-sort_by is_newer (values m) ∙ length-values m

page-and-rest :
    (limit offset : ℕ) (xs : List Transition)
    → take limit (drop offset xs) ++ drop (offset + limit) xs ≡ drop offset xs
page-and-rest limit offset xs =
    ap (λ l. take limit (drop offset xs) ++ l) (sym (drop-drop limit offset xs))
    ∙ take-drop limit (drop offset xs)

pages-drop :
    (session : TransitionSession) (limit : ℤ) (n offset : ℕ) (db : TransitionTables)
    → session.count ≡ none
    → session.query ≡ none
    → length db.transitions ≤ offset + n * normalize_transition_page_limit limit
    → pages session limit n offset db ≡ ok (drop offset (newest_first db.transitions))
pages-drop session limit zero offset db c q h = ap ok (
    sym (
      drop-length offset (newest_first db.transitions)
        (omega (arith, h, length-newest_first db.transitions))))
pages-drop session limit (suc n) offset db c q h =
    let size = normalize_transition_page_limit limit in
    ap
      (λ page. and_then page (λ (items, total).
        and_then (pages session limit n (offset + size) db) (λ rest. ok (items ++ rest))))
      (list_transitions-page session limit offset db c q)
    ∙ ap
        (λ more.
          and_then more
            (λ rest. ok (take size (drop offset (newest_first db.transitions)) ++ rest)))
        (pages-drop session limit n (offset + size) db c q (omega (arith, h)))
    ∙ ap ok (page-and-rest size offset (newest_first db.transitions))

-- All rows, newest first, each once.
abbrev pub IsWhole : Dict Transition → List Transition → Type 0
IsWhole m all =
    IsSorted is_newer all × ((p : Transition → Bool) → count_if p all ≡ count_if p (values m))

-- Where the database answers: whatever limit a client asks for, the pages that `ListTransitions`
-- gives it at the offsets 0, one page size, two page sizes and so on are, put together, all
-- transitions, each as often as the table has it, and none stands behind one that was queued before it
-- (or then with the smaller identifier). As many pages are enough as cover the number of rows.
pub list_transitions-pages :
    (session : TransitionSession) (limit : ℤ) (n : ℕ) (db : TransitionTables)
    → session.count ≡ none
    → session.query ≡ none
    → length db.transitions ≤ n * normalize_transition_page_limit limit
    → (all : List Transition) × (pages session limit n 0 db ≡ ok all) × IsWhole db.transitions all
unfolding newest_first
list_transitions-pages session limit n db c q h = (
  newest_first db.transitions,
  pages-drop session limit n 0 db c q (omega (arith, h)),
  (
    sort_by-IsSorted is_newer is_newer-asym is_newer-cotrans (values db.transitions),
    λ p. count_if-sort_by is_newer p (values db.transitions),
  ),
)
