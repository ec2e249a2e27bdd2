-- ===== src/Database/Codec/Tests.antt =====
-- A document with a date, and values that are strings.
use veidemann_browser_contro.Prelude.{
  ◌≡◌, refl, sym, ◌∙◌, true, String, none, some, List, [], ◌∷◌, str_eq, eq_iff, lookup, insert,
  Bool-cases, inl, inr, if◌then◌else◌,
}
use veidemann_browser_contro.Errors.{ok}
use veidemann_browser_contro.Database.Codec.{Coding, encoded, encode_entries}
use veidemann_browser_contro.Database.Codec.Order.{
  Becomes, Visits, encode_entries-Becomes, encode_entries-order,
}

abbrev coding : Coding
coding = record {
  Value = String;
  Message = List (String × String);
  Text = List (String × String);
  string_of = λ v. some v;
  parse_time = λ t. if str_eq t "2020-01-01T00:00:00Z" then some "1577836800" else none;
  encode = λ v. ok v;
  proto_marshal = ok;
  json_unmarshal = ok;
  json_marshal = λ v. ok [];
  proto_unmarshal_lenient = ok;
  proto_unmarshal = ok;
}

abbrev document : List (String × String)
document = ("id", "7") ∷ ("created", "2020-01-01T00:00:00Z") ∷ []

abbrev backwards : List (String × String)
backwards = ("created", "2020-01-01T00:00:00Z") ∷ ("id", "7") ∷ []

abbrev stored : List (String × String)
stored = ("id", "7") ∷ ("created", "1577836800") ∷ []

stored_lem : encode_entries coding document document ≡ ok stored
unfolding encode_entries encoded insert
stored_lem = refl

document-Visits : Visits coding document document
unfolding lookup
document-Visits = ((refl, (refl, tt)), λ k. refl)

backwards-Visits : Visits coding backwards document
unfolding lookup
backwards-Visits = (
  (refl, (refl, tt)),
  λ k. elim (Bool-cases (str_eq "id" k)) [
    | inl e ↦ elim (Bool-cases (str_eq "created" k)) [
      | inl e' ↦
          let same : str_eq "id" "created" ≡ true =
            (eq_iff "id" "created").1 ((eq_iff "id" k).0 e ∙ sym ((eq_iff "created" k).0 e')) in
          cc
      | inr e' ↦ rw (e, e') refl
    ]
    | inr e ↦ rw e refl
  ],
)

created-Becomes : Becomes coding (lookup "created" document) (lookup "created" stored)
created-Becomes =
    encode_entries-Becomes coding document document stored "created" document-Visits stored_lem

encode_entries-order_example :
    (r' : List (String × String)) × (encode_entries coding backwards document ≡ ok r')
    × ((k : String)
        → (lookup k stored ≡ lookup k r') × Becomes coding (lookup k document) (lookup k r'))
encode_entries-order_example =
    encode_entries-order coding document backwards document stored document-Visits backwards-Visits
      stored_lem
