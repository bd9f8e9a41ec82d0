-- ===== src/Server/Pagination.antt =====
-- `parseListPagination`. `strconv.Atoi` is an argument.
use chamicore.Prelude.{
  ◌≡◌, ◌++◌, Option, none, some, arith, Result, ok, err, and_then, is_empty, if◌then◌else◌,
  Bool-cases, Result-cases, inl, inr,
}
use chamicore.Prelude.Int.{ℤ, pos, ◌≤ℤ◌, leb_ℤ, ltb_ℤ}
use chamicore.Text.{Text, codes}
use chamicore.Text.Trim.{trim_space}
use chamicore.Text.Quote.{quoted}
use chamicore.GoError.{GoError, message}

abbrev default_transition_list_limit : ℤ
default_transition_list_limit = pos 100

abbrev max_transition_list_limit : ℤ
max_transition_list_limit = pos 1000

abbrev invalid : Text → Text → GoError
invalid name value = message (codes "invalid " ++ (name ++ (codes " value " ++ quoted value)))

abbrev limit_of : Text → Option ℤ → Result GoError ℤ
limit_of value none = err (invalid (codes "limit") value)
limit_of value (some parsed) =
    if leb_ℤ parsed (pos 0)
    then err (invalid (codes "limit") value)
    else if ltb_ℤ max_transition_list_limit parsed
    then ok max_transition_list_limit
    else ok parsed

abbrev offset_of : Text → Option ℤ → Result GoError ℤ
offset_of value none = err (invalid (codes "offset") value)
offset_of value (some parsed) =
    if ltb_ℤ parsed (pos 0) then err (invalid (codes "offset") value) else ok parsed

unfoldable pub parse_limit : (Text → Option ℤ) → Text → Result GoError ℤ
parse_limit atoi value =
    if is_empty value then ok default_transition_list_limit else limit_of value (atoi value)

unfoldable pub parse_offset : (Text → Option ℤ) → Text → Result GoError ℤ
parse_offset atoi value = if is_empty value then ok (pos 0) else offset_of value (atoi value)

-- `parseListPagination`, given the two values of the query.
unfoldable pub parse_list_pagination : (Text → Option ℤ) → Text → Text → Result GoError (ℤ × ℤ)
unfolding parse_limit parse_offset
parse_list_pagination atoi limit_value offset_value =
    and_then (parse_limit atoi (trim_space limit_value)) (λ limit.
      and_then (parse_offset atoi (trim_space offset_value)) (λ offset. ok (limit, offset)))

limit_of-bounds :
    (value : Text) (o : Option ℤ) (limit : ℤ)
    → limit_of value o ≡ ok limit
    → (pos 1 ≤ℤ limit) × (limit ≤ℤ pos 1000)
limit_of-bounds value none limit h = absurd (ground (arith, h))
limit_of-bounds value (some parsed) limit h = ground (arith, h)

parse_limit-bounds :
    (atoi : Text → Option ℤ) (value : Text) (limit : ℤ)
    → parse_limit atoi value ≡ ok limit
    → (pos 1 ≤ℤ limit) × (limit ≤ℤ pos 1000)
unfolding parse_limit
parse_limit-bounds atoi value limit h = elim (Bool-cases (is_empty value)) [
  | inl e ↦ ground (arith, h, e)
  | inr e ↦ limit_of-bounds value (atoi value) limit (ground (arith, h, e))
]

offset_of-bounds :
    (value : Text) (o : Option ℤ) (offset : ℤ) → offset_of value o ≡ ok offset → pos 0 ≤ℤ offset
offset_of-bounds value none offset h = absurd (ground (arith, h))
offset_of-bounds value (some parsed) offset h = ground (arith, h)

parse_offset-bounds :
    (atoi : Text → Option ℤ) (value : Text) (offset : ℤ)
    → parse_offset atoi value ≡ ok offset
    → pos 0 ≤ℤ offset
unfolding parse_offset
parse_offset-bounds atoi value offset h = elim (Bool-cases (is_empty value)) [
  | inl e ↦ ground (arith, h, e)
  | inr e ↦ offset_of-bounds value (atoi value) offset (ground (arith, h, e))
]

-- However the query values read and whatever number they stand for, pagination that is accepted asks
-- for at least one and at most 1000 items, from an offset that is not negative.
pub parse_list_pagination-bounds :
    (atoi : Text → Option ℤ) (limit_value offset_value : Text) {limit offset : ℤ}
    → parse_list_pagination atoi limit_value offset_value ≡ ok (limit, offset)
    → (pos 1 ≤ℤ limit) × (limit ≤ℤ pos 1000) × (pos 0 ≤ℤ offset)
unfolding parse_list_pagination
parse_list_pagination-bounds atoi limit_value offset_value {limit} {offset} h =
    elim (Result-cases (parse_limit atoi (trim_space limit_value))) [
      | inl (x, e) ↦ absurd (ground (arith, h, e))
      | inr (l, e) ↦ elim (Result-cases (parse_offset atoi (trim_space offset_value))) [
        | inl (x, f) ↦ absurd (ground (arith, h, e, f))
        | inr (o, f) ↦ ground (
          arith,
          h,
          e,
          f,
          parse_limit-bounds atoi (trim_space limit_value) l e,
          parse_offset-bounds atoi (trim_space offset_value) o f,
        )
      ]
    ]
