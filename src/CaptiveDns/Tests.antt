-- ===== src/CaptiveDns/Tests.antt =====
-- A query for the address of "a", in a buffer of 40 bytes.
use remote_wake.Base.{ℕ, ◌≡◌, ◌⊎◌, List, [], ◌∷◌, ◌++◌, replicate, refl}
use remote_wake.CaptiveDns.{reply, refused, skip_name, answer_at, asks_address}
use remote_wake.CaptiveDns.Reply.{IsReply, reply-IsReply}

abbrev query : List ℕ
query =
    (0x12 ∷ 0x34 ∷ 1 ∷ 0 ∷ 0 ∷ 1 ∷ 0 ∷ 0 ∷ 0 ∷ 0 ∷ 0 ∷ 0 ∷ 1 ∷ 97 ∷ 0 ∷ 0 ∷ 1 ∷ 0 ∷ 1 ∷ [])
    ++ replicate 21 0

abbrev address : List ℕ
address = 192 ∷ 168 ∷ 4 ∷ 1 ∷ []

answered : (reply query 19 address).1 ≡ 35
unfolding reply refused skip_name answer_at asks_address
answered = refl

reply-IsReply_example :
    (reply query 19 address ≡ (query, 0))
    ⊎ IsReply query 19 (reply query 19 address).0 (reply query 19 address).1
reply-IsReply_example = reply-IsReply query 19 address
