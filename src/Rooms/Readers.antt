-- ===== src/Rooms/Readers.antt =====
-- grpc/server.go, `cleanReadBy`: who is listed, and how often.
use chat_gateway.Prelude.{◌≡◌, refl, Bool, true, not, ◌&&◌, List, [], ◌∷◌, any, arith}
use chat_gateway.Prelude.Text.{Text, text_eq, text_eq_iff}
use chat_gateway.Prelude.Dict.{Dict, lookup, insert, lookup-insert}
use chat_gateway.Rooms.{is_set, clean_from, clean_read_by}

abbrev pub has : Text → List Text → Bool
has user users = any (λ u. text_eq u user) users

-- Every entry stands once.
abbrev pub once : List Text → Bool
once [] = true
once (u ∷ us) = not (has u us) && once us

has-clean_from :
    (user sender : Text) (seen : Dict Bool) (users : List Text)
    → has user (clean_from sender seen users)
      ≡ (not (text_eq user sender) && not (is_set (lookup user seen)) && has user users)
unfolding clean_from
has-clean_from user sender seen [] = ground arith
has-clean_from user sender seen (u ∷ us) = ground (
  arith,
  text_eq_iff u user,
  text_eq_iff u sender,
  text_eq_iff user sender,
  has-clean_from user sender seen us,
  has-clean_from user sender (insert u true seen) us,
  lookup-insert u user true seen,
)

once-clean_from :
    (sender : Text) (seen : Dict Bool) (users : List Text)
    → once (clean_from sender seen users) ≡ true
unfolding clean_from
once-clean_from sender seen [] = refl
once-clean_from sender seen (u ∷ us) = ground (
  arith,
  once-clean_from sender seen us,
  once-clean_from sender (insert u true seen) us,
  has-clean_from u sender (insert u true seen) us,
  lookup-insert u u true seen,
  text_eq_iff u u,
)

-- The cleaned list of readers holds exactly the readers other than the sender, each once.
pub clean_read_by_lem :
    (sender : Text) (users : List Text)
    → (once (clean_read_by users sender) ≡ true)
      × ((user : Text)
          → has user (clean_read_by users sender) ≡ (not (text_eq user sender) && has user users))
unfolding clean_read_by lookup
clean_read_by_lem sender users =
    (once-clean_from sender [] users, λ user. ground (arith, has-clean_from user sender [] users))
