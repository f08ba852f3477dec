-- ===== src/Loader/Post/Ids.antt =====
-- Request ids: they are never the stop id, and come again only after 2^31 requests.
use instant_tensor.Base.{ℕ, zero, suc, ◌+◌, ◌%◌, ◌^◌, ◌<◌, ◌≡◌, ◌≢◌, arith}
use instant_tensor.Loader.Post.{next_request_id}

-- The id behind `n` requests.
unfoldable pub id_after : ℕ → ℕ → ℕ
id_after zero id = id
id_after (suc n) id = next_request_id (id_after n id)

id_after_lem : (n id : ℕ) → id < 2 ^ 31 → id_after n id ≡ (id + n) % 2 ^ 31
unfolding id_after next_request_id
id_after_lem zero id h = omega arith
id_after_lem (suc n) id h = omega (arith, id_after_lem n id h)

-- From an id below 2^31 on, two requests with fewer than 2^31 requests between them have different
-- ids, and each id is below 2^31, so that as an `int` it is not negative and not
-- EXECUTOR_STOP_REQUEST_ID.
pub id_after_distinct :
    (m n id : ℕ)
    → id < 2 ^ 31
    → m < n
    → n < m + 2 ^ 31
    → (id_after m id ≢ id_after n id) × (id_after n id < 2 ^ 31)
id_after_distinct m n id h less near = omega (arith, id_after_lem m id h, id_after_lem n id h)
