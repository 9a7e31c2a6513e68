-- ===== src/Storage/Fixtures.antt =====
-- Concrete values for the examples: object ids, times, reads in order of the documents in memory.
use mathlib.Core.List.{reverse}
use chat_gateway.Prelude.{
  ℕ, ◌*◌, ◌/◌, ◌≤◌, ◌≡◌, ◌⊎◌, refl, inl, inr, Option, none, some, true, List, [], ◌∷◌, take, keep,
  All, ltb, Bool-cases, if◌then◌else◌, arith,
}
use chat_gateway.Prelude.Text.{Text, bytes}
use chat_gateway.Storage.Collection.{In}
use chat_gateway.Storage.Paging.{Rfc3339, View, IsSorted, second}
use chat_gateway.Storage.Messages.{Message}
use chat_gateway.Storage.MessageStore.{ObjectIds, NewIds}
use chat_gateway.Storage.ChatRoomStore.{ChatRoom, RoomMember, RoomSettings}

abbrev decimal : Text → Option ℕ
decimal (n ∷ []) = some n
decimal _ = none

abbrev pub ids : ObjectIds
ids = record { hex = λ n. n ∷ []; from_hex = decimal; from_hex-hex = λ n. refl }

abbrev parse : Text → Option ℕ
parse (a ∷ s ∷ []) = some (s * second)
parse _ = none

abbrev pub time : Rfc3339
time = record {
  format = λ t. 84 ∷ t / second ∷ [];
  parse = parse;
  parse_format = λ t. refl;
  format_ne = λ t e. cc;
}

module _ {D : Type 0} (key : D → ℕ) where
  abbrev put_up : D → List D → List D
  put_up d [] = d ∷ []
  put_up d (x ∷ xs) = if ltb (key d) (key x) then d ∷ x ∷ xs else x ∷ put_up d xs

  abbrev sort_up : List D → List D
  sort_up [] = []
  sort_up (x ∷ xs) = put_up x (sort_up xs)

  All-put_up :
      (n : ℕ) (d : D) (xs : List D)
      → n ≤ key d
      → All (λ k. n ≤ key k) xs
      → All (λ k. n ≤ key k) (put_up d xs)
  All-put_up n d [] h a = (h, tt)
  All-put_up n d (x ∷ xs) h a = elim (Bool-cases (ltb (key d) (key x))) [
    | inl e ↦ rw e (h, a)
    | inr e ↦ rw e (a.0, All-put_up n d xs h a.1)
  ]

  All-weaken : (m n : ℕ) (xs : List D) → m ≤ n → All (λ k. n ≤ key k) xs → All (λ k. m ≤ key k) xs
  All-weaken m n [] h a = tt
  All-weaken m n (x ∷ xs) h a = (omega (arith, a.0), All-weaken m n xs h a.1)

  put_up-IsSorted : (d : D) (xs : List D) → IsSorted key xs → IsSorted key (put_up d xs)
  put_up-IsSorted d [] s = (tt, tt)
  put_up-IsSorted d (x ∷ xs) s = elim (Bool-cases (ltb (key d) (key x))) [
    | inl e ↦
        let less : key d ≤ key x = ground (arith, e) in
        rw e ((less, All-weaken (key d) (key x) xs less s.0), s)
    | inr e ↦
        let less : key x ≤ key d = ground (arith, e) in
        rw e (All-put_up (key x) d xs less s.0, put_up-IsSorted d xs s.1)
  ]

  pub sort_up-IsSorted : (xs : List D) → IsSorted key (sort_up xs)
  sort_up-IsSorted [] = tt
  sort_up-IsSorted (x ∷ xs) = put_up-IsSorted x (sort_up xs) (sort_up-IsSorted xs)

  In-put_up : (x d : D) (xs : List D) → In x (put_up d xs) → (x ≡ d) ⊎ In x xs
  In-put_up x d [] h = h
  In-put_up x d (y ∷ ys) h = elim (Bool-cases (ltb (key d) (key y))) [
    | inl e ↦ rw e at h
    | inr e ↦ elim (rw e at h) [
      | inl same ↦ inr (inl same)
      | inr i ↦ elim (In-put_up x d ys i) [ inl same ↦ inl same | inr k ↦ inr (inr k) ]
    ]
  ]

  pub In-sort_up : (x : D) (xs : List D) → In x (sort_up xs) → In x xs
  In-sort_up x [] h = h
  In-sort_up x (y ∷ ys) h = elim (In-put_up x y (sort_up ys) h) [
    | inl same ↦ inl same
    | inr i ↦ inr (In-sort_up x ys i)
  ]

  pub same_list : (xs ys : List D) → some xs ≡ some ys → ys ≡ xs
  same_list xs ys h = ground (arith, h)

  abbrev pub ordered : List D → View D key
  ordered s = record {
    documents = sort_up s;
    sorted = sort_up-IsSorted s;
    find_up = λ f n. some (take n (keep f (sort_up s)));
    find_down = λ f n. some (take n (keep f (reverse (sort_up s))));
    found_up = λ f n ms h. same_list (take n (keep f (sort_up s))) ms h;
    found_down = λ f n ms h. same_list (take n (keep f (reverse (sort_up s)))) ms h;
  }

abbrev pub message : ℕ → Message
message n = record {
  object_id = n;
  id = n ∷ [];
  room_id = bytes "r1";
  sender_id = bytes "alice";
  content = bytes "hi";
  kind = bytes "text";
  status = bytes "sent";
  created_at = n * second;
  updated_at = n * second;
  read_by = [];
  delivered_to = [];
}

abbrev pub member : Text → RoomMember
member user = record {
  user_id = user;
  username = user;
  display_name = user;
  avatar_url = [];
  role = bytes "member";
  status = bytes "active";
  joined_at = 0;
  last_seen = 0;
  last_read_at = 0;
}

abbrev pub settings : RoomSettings
settings = record {
  allow_invite = true;
  allow_edit_messages = true;
  allow_delete_messages = true;
  allow_pin_messages = true;
  max_members = 100;
  welcome_message = [];
}

abbrev pub room : ℕ → ChatRoom
room n = record {
  object_id = n;
  id = n ∷ [];
  name = bytes "team";
  kind = bytes "group";
  owner_id = bytes "alice";
  settings = settings;
  created_at = n * second;
  updated_at = n * second;
  last_message_at = n * second;
  last_message = [];
  last_message_time = 0;
  members = member (bytes "alice") ∷ [];
}

abbrev pub new : NewIds
new = record { own = 20; stored = 21 }
