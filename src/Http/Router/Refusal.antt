-- ===== src/Http/Router/Refusal.antt =====
-- platform/server/http.go, `createRoom`: a new room that the database does not take.
use chat_gateway.Prelude.{◌≡◌, ℕ, Option, refl, none, false, Bool, Result, ok, err, ◌∙◌}
use chat_gateway.Prelude.Text.{Text}
use chat_gateway.Storage.ChatRoomStore
use chat_gateway.Rooms.World.{Platform, World, Moment}
use chat_gateway.Rooms.Creating.{
  CreateRoomRequest, create_room, create_new_room, existing_room, requested_room,
}
use chat_gateway.Http.Errors.{Outcome, panic}
use chat_gateway.Http.Setup.{Config, through, Gateway, Turn, get_connection}
use chat_gateway.Http.Calling.{invoke, over}
use chat_gateway.Http.RoomHandlers.{RoomForm, room_request, room_answer, post_room}

module _ (p : Platform) (wide : ℕ → ℕ) (cfg : Option Config) where
  create_room-refused :
      (i : Moment) (req : CreateRoomRequest) (w : World p)
      → existing_room p req w ≡ none
      → (ChatRoomStore.create p.ids p.rooms i.now i.new (requested_room i req) w.rooms).2 ≡ false
      → (create_room p i req w).0.body ≡ none
  unfolding create_room create_new_room
  create_room-refused i req w e h = rw (e, create_room) (rw h refl)

  over-through :
      {A : Type 0} (id : Text) (t : Turn) (serve : World p → A × World p) (respond : A → Outcome)
      (g : Gateway p) (c : Bool × Result Text (Unit {0}))
      → c.1 ≡ ok tt
      → t.fate ≡ through
      → (over p wide cfg id t serve respond g c).0 ≡ respond (serve g.world).0
  over-through id t serve respond g (c, err e) h k = cc
  over-through id t serve respond g (c, ok done) h k = rw k refl

  -- A request for a new room that passes the checks, reaches the service over its connection, and
  -- whose room is not a direct chat that is there already and is not taken by the database, makes the
  -- handler panic instead of answering that the room could not be made.
  pub post_room-refused :
      (id : Text) (t : Turn) (body : Result Text RoomForm) (req : CreateRoomRequest) (g : Gateway p)
      → room_request cfg id body ≡ ok req
      → (get_connection cfg t.dialled g.connected).1 ≡ ok tt
      → t.fate ≡ through
      → existing_room p req g.world ≡ none
      → (ChatRoomStore.create p.ids p.rooms t.moment.now t.moment.new
          (requested_room t.moment req)
          g.world.rooms).2
        ≡ false
      → (post_room p wide cfg id t body g).0 ≡ panic
  unfolding post_room invoke room_answer
  post_room-refused id t body req g e connected sent new refused = rw e (
      over-through id t (create_room p t.moment req) room_answer g
        (get_connection cfg t.dialled g.connected) connected sent
      ∙ rw (create_room-refused t.moment req g.world new refused, room_answer) refl)
