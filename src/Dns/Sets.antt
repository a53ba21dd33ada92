-- ===== src/Dns/Sets.antt =====
-- What the record sets hold.
use vantric.Prelude.{
  Bool, true, false, List, [], ◌∷◌, ◌++◌, ◌≡◌, ◌≢◌, refl, sym, ap, ◌∙◌, inl, inr, map, arith,
  if◌then◌else◌, filter_by, any_of, All, All-imp, Bool-cases, append-nil, append_assoc,
}
use vantric.Prelude.Text.{Text, same, same_iff, same_refl}
use vantric.Dns.{DnsRecord, RecordSet, key, key_of, Sets, add_record, group, to_record_sets}

-- The records under a key, in order; none where the key is missing.
records_at : Text → Sets → List DnsRecord
records_at k [] = []
records_at k ((j, s) ∷ sets) = if same j k then s.records else records_at k sets

-- The records of the input that have the key, in order.
abbrev pub with_key : Text → List DnsRecord → List DnsRecord
with_key k = filter_by (λ r. same (key_of r) k)

records_at-add_record :
    (k : Text) (r : DnsRecord) (sets : Sets)
    → records_at k (add_record r sets)
      ≡ (if same (key_of r) k then records_at k sets ++ r ∷ [] else records_at k sets)
unfolding records_at add_record
records_at-add_record k r [] = ground arith
records_at-add_record k r ((j, s) ∷ sets) = ground (
  arith,
  records_at-add_record k r sets,
  same_iff j (key_of r),
  same_iff j k,
  same_iff (key_of r) k,
)

records_at-group :
    (k : Text) (sets : Sets) (rs : List DnsRecord)
    → records_at k (group sets rs) ≡ records_at k sets ++ with_key k rs
unfolding group
records_at-group k sets [] = sym (append-nil (records_at k sets))
records_at-group k sets (r ∷ rs) = ground (
  arith,
  records_at-group k (add_record r sets) rs,
  records_at-add_record k r sets,
  append_assoc (records_at k sets) (r ∷ []) (with_key k rs),
)

-- Each entry stands under the key of its set, and no later entry has that key.
abbrev IsFresh : Text → Sets → Type 0
IsFresh k = All (λ e. same e.0 k ≡ false)

abbrev IsKeyed : Sets → Type 0
IsKeyed [] = Unit
IsKeyed ((k, s) ∷ sets) = (k ≡ key s.name s.type) × IsFresh k sets × IsKeyed sets

IsFresh-add_record :
    (k : Text) (r : DnsRecord) (sets : Sets)
    → same (key_of r) k ≡ false
    → IsFresh k sets
    → IsFresh k (add_record r sets)
unfolding add_record
IsFresh-add_record k r [] n h = (n, tt)
IsFresh-add_record k r ((j, s) ∷ sets) n (hj, h) = ground (arith, IsFresh-add_record k r sets n h)

same_symm : (a b : Text) → same a b ≡ same b a
same_symm a b = ground (arith, same_iff a b, same_iff b a)

IsKeyed-add_record : (r : DnsRecord) (sets : Sets) → IsKeyed sets → IsKeyed (add_record r sets)
unfolding add_record
IsKeyed-add_record r [] h = (refl, tt, tt)
IsKeyed-add_record r ((k, s) ∷ sets) (e, fresh, h) = elim (Bool-cases (same k (key_of r))) [
  | inl found ↦ rw found (e, fresh, h)
  | inr other ↦ rw other (
    e,
    IsFresh-add_record k r sets (same_symm (key_of r) k ∙ other) fresh,
    IsKeyed-add_record r sets h,
  )
]

IsKeyed-group : (sets : Sets) (rs : List DnsRecord) → IsKeyed sets → IsKeyed (group sets rs)
unfolding group
IsKeyed-group sets [] h = h
IsKeyed-group sets (r ∷ rs) h = IsKeyed-group (add_record r sets) rs (IsKeyed-add_record r sets h)

-- Each entry holds what stands under its key.
abbrev Holds : Sets → Sets → Type 0
Holds sets = All (λ e. (records_at e.0 sets ≡ e.1.records) × (e.0 ≡ key e.1.name e.1.type))

Holds-cons :
    (k : Text) (s : RecordSet) (sets es : Sets)
    → IsFresh k es
    → Holds sets es
    → Holds ((k, s) ∷ sets) es
unfolding records_at
Holds-cons k s sets [] fresh h = tt
Holds-cons k s sets ((j, t) ∷ es) (fj, fresh) ((hj, ej), h) =
    ((rw (same_symm k j, fj) hj, ej), Holds-cons k s sets es fresh h)

Holds-of_IsKeyed : (sets : Sets) → IsKeyed sets → Holds sets sets
unfolding records_at
Holds-of_IsKeyed [] h = tt
Holds-of_IsKeyed ((k, s) ∷ sets) (e, fresh, h) =
    ((rw (same_refl k) refl, e), Holds-cons k s sets sets fresh (Holds-of_IsKeyed sets h))

pub second_All :
    (P : RecordSet → Type 0) (es : Sets)
    → All (λ e. P e.1) es
    → All P (map (λ (e : Text × RecordSet). e.1) es)
second_All P [] h = tt
second_All P (e ∷ es) (p, h) = (p, second_All P es h)

-- Each set holds the records of the input that have its key, all of them and in order.
pub to_record_sets-with_key :
    (rs : List DnsRecord)
    → All (λ s. s.records ≡ with_key (key s.name s.type) rs) (to_record_sets rs)
unfolding to_record_sets records_at
to_record_sets-with_key rs =
    let sets = group [] rs in
    let holds = Holds-of_IsKeyed sets (IsKeyed-group [] rs tt) in
    second_All (λ s. s.records ≡ with_key (key s.name s.type) rs) sets (All-imp sets entry holds)
  where
    entry :
        (e : Text × RecordSet)
        → (records_at e.0 (group [] rs) ≡ e.1.records) × (e.0 ≡ key e.1.name e.1.type)
        → e.1.records ≡ with_key (key e.1.name e.1.type) rs
    entry e (h, k) = sym h ∙ records_at-group e.0 [] rs ∙ ap (λ j. with_key j rs) k

-- The keys of the sets are distinct.
abbrev pub HasDistinctKeys : List RecordSet → Type 0
HasDistinctKeys [] = Unit
HasDistinctKeys (s ∷ sets) =
    All (λ t. key s.name s.type ≢ key t.name t.type) sets × HasDistinctKeys sets

apart_of_IsFresh :
    (k : Text) (es : Sets)
    → IsFresh k es
    → IsKeyed es
    → All (λ t. k ≢ key t.name t.type) (map (λ (e : Text × RecordSet). e.1) es)
apart_of_IsFresh k [] fresh h = tt
apart_of_IsFresh k ((j, t) ∷ es) (fj, fresh) (e, _, h) =
    ((λ q. cc ((same_iff j k).1 (e ∙ sym q))), apart_of_IsFresh k es fresh h)

distinct_of_IsKeyed :
    (sets : Sets) → IsKeyed sets → HasDistinctKeys (map (λ (e : Text × RecordSet). e.1) sets)
distinct_of_IsKeyed [] h = tt
distinct_of_IsKeyed ((k, s) ∷ sets) (e, fresh, h) =
    (rw (← e) (apart_of_IsFresh k sets fresh h), distinct_of_IsKeyed sets h)

-- No two sets share a key.
pub to_record_sets-distinct : (rs : List DnsRecord) → HasDistinctKeys (to_record_sets rs)
unfolding to_record_sets
to_record_sets-distinct rs = distinct_of_IsKeyed (group [] rs) (IsKeyed-group [] rs tt)

-- Whether some set has the key.
abbrev pub has_key : Text → List RecordSet → Bool
has_key k = any_of (λ s. same (key s.name s.type) k)

has_key_of_records :
    (k : Text) (sets : Sets)
    → IsKeyed sets
    → records_at k sets ≢ []
    → has_key k (map (λ (e : Text × RecordSet). e.1) sets) ≡ true
unfolding records_at
has_key_of_records k [] h n = absurd (n refl)
has_key_of_records k ((j, s) ∷ sets) (e, fresh, h) n =
    rw (← e) (ground (arith, has_key_of_records k sets h))

with_key-mid :
    (r : DnsRecord) (before after : List DnsRecord) → with_key (key_of r) (before ++ r ∷ after) ≢ []
with_key-mid r [] after = ground (arith, same_refl (key_of r))
with_key-mid r (q ∷ before) after = ground (arith, with_key-mid r before after)

-- Every record of the input has a set.
pub to_record_sets-has_key :
    (before after : List DnsRecord) (r : DnsRecord)
    → has_key (key_of r) (to_record_sets (before ++ r ∷ after)) ≡ true
unfolding to_record_sets records_at
to_record_sets-has_key before after r =
    let rs = before ++ r ∷ after in
    has_key_of_records (key_of r) (group [] rs) (IsKeyed-group [] rs tt)
      (λ e. with_key-mid r before after (sym (records_at-group (key_of r) [] rs) ∙ e))
