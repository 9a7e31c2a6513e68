-- ===== src/Storage/Collection.antt =====
-- A MongoDB collection, as the repositories use it. The driver and the server are not part of the
-- program: their operations are fields here, with the documented behaviour that the code relies on. A
-- filter is given by the documents that it selects, an update by what it makes of a document. An
-- operation answers `true` where the driver returns no error.
use chat_gateway.Prelude.{
  length, ap, ◌++◌, ℕ, ltb, Option, some, any, ◌≡◌, refl, ◌⊎◌, inl, inr, sym, subst, Bool, true,
  false, not, List, [], ◌∷◌, keep, if◌then◌else◌, arith, Bool-cases,
}

-- The document stands in the collection.
abbrev pub In : {D : Type 0} → D → List D → Type 0
In d [] = ⊥
In d (x ∷ xs) = (d ≡ x) ⊎ In d xs

-- `ReplaceOne` with upsert: in place of one document that the filter selects, or added.
abbrev pub upsert : {D : Type 0} → (D → Bool) → D → List D → List D
upsert f d [] = d ∷ []
upsert f d (x ∷ xs) = if f x then d ∷ xs else x ∷ upsert f d xs

-- `UpdateMany`: every document that the filter selects.
abbrev pub update_all : {D : Type 0} → (D → Bool) → (D → D) → List D → List D
update_all f g [] = []
update_all f g (x ∷ xs) = (if f x then g x else x) ∷ update_all f g xs

-- `UpdateOne`: the first document that the filter selects.
abbrev pub update_first : {D : Type 0} → (D → Bool) → (D → D) → List D → List D
update_first f g [] = []
update_first f g (x ∷ xs) = if f x then g x ∷ xs else x ∷ update_first f g xs

-- `DeleteOne`
abbrev pub delete_first : {D : Type 0} → (D → Bool) → List D → List D
delete_first f [] = []
delete_first f (x ∷ xs) = if f x then xs else x ∷ delete_first f xs

-- The result of `UpdateOne`.
pub record Counts : Type 0 where
  pub matched : ℕ
  pub modified : ℕ

-- What `FindOne` answers: `ErrNoDocuments`, a document, or another error.
pub data Found (D : Type 0) : Type 0 where
  missing : Found D
  found : D → Found D
  failed : Found D

pub record Collection (D : Type 0) : Type 1 where
  pub State : Type 0
  -- The documents that a client would read.
  pub contents : State → List D
  pub update_many : (D → Bool) → (D → D) → State → State × Bool
  pub replace_one : (D → Bool) → D → State → State × Bool
  pub delete_many : (D → Bool) → State → State × Bool
  pub find_one : (D → Bool) → State → Found D
  -- `Find`, sorted by a number, the largest first; `none` is an error.
  pub find : (D → Bool) → (D → ℕ) → State → Option (List D)
  pub insert_one : D → State → State × Bool
  -- `none` is an error.
  pub update_one : (D → Bool) → (D → D) → State → State × Option Counts
  pub delete_one : (D → Bool) → State → State × Bool
  pub count_documents : (D → Bool) → State → Option ℕ
  pub start_session : State → Bool
  -- Runs the body in a transaction.
  pub with_transaction : (State → State × Bool) → State → State × Bool
  pub updated :
      (f : D → Bool) (g : D → D) (s : State)
      → (update_many f g s).1 ≡ true
      → contents (update_many f g s).0 ≡ update_all f g (contents s)
  pub replaced :
      (f : D → Bool) (d : D) (s : State)
      → (replace_one f d s).1 ≡ true
      → contents (replace_one f d s).0 ≡ upsert f d (contents s)
  pub deleted :
      (f : D → Bool) (s : State)
      → (delete_many f s).1 ≡ true
      → contents (delete_many f s).0 ≡ keep (λ d. not (f d)) (contents s)
  pub inserted :
      (d : D) (s : State)
      → (insert_one d s).1 ≡ true
      → contents (insert_one d s).0 ≡ contents s ++ d ∷ []
  pub updated_one :
      (f : D → Bool) (g : D → D) (s : State) (n : Counts)
      → (update_one f g s).1 ≡ some n
      → (contents (update_one f g s).0 ≡ update_first f g (contents s))
        × (n.matched ≡ (if any f (contents s) then 1 else 0))
  -- A write of one document takes effect as a whole or not at all, whatever is reported.
  pub inserted_or_not :
      (d : D) (s : State)
      → (contents (insert_one d s).0 ≡ contents s)
        ⊎ (contents (insert_one d s).0 ≡ contents s ++ d ∷ [])
  pub updated_or_not :
      (f : D → Bool) (g : D → D) (s : State)
      → (contents (update_one f g s).0 ≡ contents s)
        ⊎ (contents (update_one f g s).0 ≡ update_first f g (contents s))
  pub deleted_one :
      (f : D → Bool) (s : State)
      → (delete_one f s).1 ≡ true
      → contents (delete_one f s).0 ≡ delete_first f (contents s)
  pub counted :
      (f : D → Bool) (s : State) (n : ℕ)
      → count_documents f s ≡ some n
      → n ≡ length (keep f (contents s))
  pub find_found :
      (f : D → Bool) (d : D) (s : State) → find_one f s ≡ found d → (f d ≡ true) × In d (contents s)
  pub find_missing :
      (f : D → Bool) (s : State) → find_one f s ≡ missing → any f (contents s) ≡ false
  -- A transaction takes effect as a whole, or not at all.
  pub committed :
      (body : State → State × Bool) (s : State)
      → (with_transaction body s).1 ≡ true
      → ((body s).1 ≡ true) × (contents (with_transaction body s).0 ≡ contents (body s).0)
  pub aborted :
      (body : State → State × Bool) (s : State)
      → (with_transaction body s).1 ≡ false
      → contents (with_transaction body s).0 ≡ contents s

-- A collection in memory, whose operations never fail: the assumptions can be met.
abbrev find_first : {D : Type 0} → (D → Bool) → List D → Found D
find_first f [] = missing
find_first f (x ∷ xs) = if f x then found x else find_first f xs

pub find_first-found :
    {D : Type 0} (f : D → Bool) (d : D) (xs : List D)
    → find_first f xs ≡ found d
    → (f d ≡ true) × In d xs
find_first-found f d [] h = cc
find_first-found {D} f d (x ∷ xs) h = elim (Bool-cases (f x)) [
  | inl e ↦
      let same : x ≡ d = ground (arith, e) in (subst (λ (y : D). f y ≡ true) same e, inl (sym same))
  | inr e ↦
      let rest : (f d ≡ true) × In d xs = find_first-found f d xs (ground (arith, e)) in
      (rest.0, inr rest.1)
]

pub find_first-missing :
    {D : Type 0} (f : D → Bool) (xs : List D) → find_first f xs ≡ missing → any f xs ≡ false
find_first-missing f [] h = refl
find_first-missing f (x ∷ xs) h = ground (arith, find_first-missing f xs)

abbrev selected : {D : Type 0} → (D → Bool) → List D → Counts
selected f s = record { matched = if any f s then 1 else 0; modified = if any f s then 1 else 0 }

pub count_selected :
    {D : Type 0} (f : D → Bool) (s : List D) (n : Counts)
    → some (selected f s) ≡ some n
    → n.matched ≡ (if any f s then 1 else 0)
count_selected f s n h =
    let same : selected f s ≡ n = ground (arith, h) in sym (ap (λ (c : Counts). c.matched) same)

pub count_kept :
    {D : Type 0} (f : D → Bool) (s : List D) (n : ℕ)
    → some (length (keep f s)) ≡ some n
    → n ≡ length (keep f s)
count_kept f s n h = ground (arith, h)

abbrev put_down : {D : Type 0} → (D → ℕ) → D → List D → List D
put_down key d [] = d ∷ []
put_down key d (x ∷ xs) = if ltb (key x) (key d) then d ∷ x ∷ xs else x ∷ put_down key d xs

abbrev sort_down : {D : Type 0} → (D → ℕ) → List D → List D
sort_down key [] = []
sort_down key (x ∷ xs) = put_down key x (sort_down key xs)

abbrev in_transaction : {D : Type 0} → (List D → List D × Bool) → List D → List D × Bool
in_transaction body s = if (body s).1 then body s else (s, false)

pub in_transaction-committed :
    {D : Type 0} (body : List D → List D × Bool) (s : List D)
    → (in_transaction body s).1 ≡ true
    → ((body s).1 ≡ true) × ((in_transaction body s).0 ≡ (body s).0)
in_transaction-committed body s h = ground arith

pub in_transaction-aborted :
    {D : Type 0} (body : List D → List D × Bool) (s : List D)
    → (in_transaction body s).1 ≡ false
    → (in_transaction body s).0 ≡ s
in_transaction-aborted body s h = ground arith

abbrev pub in_memory : (D : Type 0) → Collection D
in_memory D = record {
  State = List D;
  contents = λ s. s;
  update_many = λ f g s. (update_all f g s, true);
  replace_one = λ f d s. (upsert f d s, true);
  delete_many = λ f s. (keep (λ d. not (f d)) s, true);
  find_one = find_first;
  insert_one = λ d s. (s ++ d ∷ [], true);
  update_one = λ f g s. (update_first f g s, some (selected f s));
  delete_one = λ f s. (delete_first f s, true);
  count_documents = λ f s. some (length (keep f s));
  find = λ f key s. some (sort_down key (keep f s));
  start_session = λ s. true;
  with_transaction = in_transaction;
  updated = λ f g s h. refl;
  replaced = λ f d s h. refl;
  deleted = λ f s h. refl;
  inserted = λ d s h. refl;
  updated_one = λ f g s n h. (refl, count_selected f s n h);
  inserted_or_not = λ d s. inr refl;
  updated_or_not = λ f g s. inr refl;
  deleted_one = λ f s h. refl;
  counted = λ f s n h. count_kept f s n h;
  find_found = find_first-found;
  find_missing = find_first-missing;
  committed = in_transaction-committed;
  aborted = in_transaction-aborted;
}
