-- ===== src/Evidence/Lines.antt =====
-- The lines of a `.jsonl` file: hp34401a_dmm/evidence.py writes a record with `ensure_ascii=False`,
-- and scripts/validate_evidence.py reads the file with `splitlines`. JSON escapes the control
-- characters below U+0020, and leaves U+0085, U+2028 and U+2029 as they are, where a line ends too.
use hp34401a_driver.Base.{
  ℕ, String, Bool, false, Option, none, some, List, [], ◌∷◌, ◌||◌, any, map, ◌≡◌, refl, arith,
  if◌then◌else◌,
}
use hp34401a_driver.Base.Text.{codes, contains}
use hp34401a_driver.Evidence.Json.{
  Value, text, mapping, items, enum_member, dataclass, opaque, Items, nil, item, Fields, end, field,
}
use hp34401a_driver.Evidence.Records.{Exc, Event, Operation, ErrorEntry, Exchange, Run}
use hp34401a_driver.Evidence.Validate.{Line, invalid, numbered}

-- A separator in a text, in UTF-8.
unfoldable pub breaks : String → Bool
breaks s =
    contains (194 ∷ 133 ∷ []) (codes s)
    || contains (226 ∷ 128 ∷ 168 ∷ []) (codes s)
    || contains (226 ∷ 128 ∷ 169 ∷ []) (codes s)

abbrev breaks_if : Option String → Bool
breaks_if none = false
breaks_if (some s) = breaks s

unfoldable mutual
  unfolding breaks

  pub value_breaks : {F : Type 0} → Value F → Bool
  value_breaks (text s) = breaks s
  value_breaks (mapping fs) = fields_break fs
  value_breaks (items xs) = items_break xs
  value_breaks (enum_member v) = value_breaks v
  value_breaks (dataclass fs) = fields_break fs
  value_breaks (opaque s) = breaks s
  value_breaks _ = false

  items_break : {F : Type 0} → Items F → Bool
  items_break nil = false
  items_break (item x xs) = value_breaks x || items_break xs

  pub fields_break : {F : Type 0} → Fields F → Bool
  fields_break end = false
  fields_break (field k v fs) = breaks k || value_breaks v || fields_break fs

module _ {F : Type 0} where
  abbrev exc_breaks : Exc F → Bool
  exc_breaks e = breaks e.class_name || breaks e.message || value_breaks e.code

  abbrev exc_breaks_if : Option (Exc F) → Bool
  exc_breaks_if none = false
  exc_breaks_if (some e) = exc_breaks e

  abbrev pub event_breaks : Event F → Bool
  event_breaks e =
      breaks e.producer
      || breaks e.event_type
      || breaks_if e.event_correlation
      || breaks_if e.event_operation
      || breaks_if e.event_alias
      || breaks_if e.suite
      || breaks_if e.test
      || breaks_if e.keyword
      || fields_break e.event_data

  abbrev pub operation_breaks : Operation F → Bool
  operation_breaks o =
      breaks o.id
      || breaks o.correlation
      || breaks o.capability
      || breaks_if o.operation_alias
      || fields_break o.arguments
      || value_breaks o.outcome
      || exc_breaks_if o.failure

  abbrev pub error_breaks : ErrorEntry F → Bool
  error_breaks e =
      breaks e.error_id
      || breaks_if e.error_correlation
      || breaks_if e.error_operation
      || breaks_if e.error_capability
      || breaks_if e.error_alias
      || exc_breaks e.exception

  abbrev pub exchange_breaks : Exchange F → Bool
  exchange_breaks x =
      breaks_if x.exchange_operation
      || breaks_if x.exchange_correlation
      || breaks x.transport_kind
      || breaks x.direction
      || breaks_if x.exchange_alias
      || breaks x.sent_text

-- What is read of records: one with a separator is no JSON from its start to the first, nor from the
-- last to its end. What stands between two separators is left out.
abbrev pub read_lines : {A : Type 0} → (A → Bool) → (A → ℕ) → List A → List Line
read_lines broken number [] = []
read_lines broken number (x ∷ xs) =
    let rest = read_lines broken number xs in
    if broken x then invalid ∷ invalid ∷ rest else numbered (number x) ∷ rest

pub read_lines-map :
    {A : Type 0} (broken : A → Bool) (number : A → ℕ) (xs : List A)
    → any broken xs ≡ false
    → read_lines broken number xs ≡ map (λ x. numbered (number x)) xs
read_lines-map broken number [] h = refl
read_lines-map broken number (x ∷ xs) h =
    ground (arith, h, read_lines-map broken number xs (ground (arith, h)))

-- No text in the four files of a run has a separator.
pub record Unbroken {F : Type 0} (r : Run F) : Type 0 where
  pub events_whole : any event_breaks r.events ≡ false
  pub operations_whole : any operation_breaks r.operations ≡ false
  pub errors_whole : any error_breaks r.errors ≡ false
  pub exchanges_whole : any exchange_breaks r.exchanges ≡ false
