-- ===== src/Http.antt =====
-- Replies of the HTTP services: the status and what the JSON body says. The text of a binding error
-- is the library's and is not modelled.
use vkr_public.Base.{ℕ, String}

pub data Body : Type 0 where
  bind_failure : Body
  error_text : String → Body
  accepted_true : Body
  status_ok : Body
  exposition : Body
  not_found : Body

pub record Reply {ℓ} (B : Type ℓ) : Type ℓ where
  pub status : ℕ
  pub body : B
