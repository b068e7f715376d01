-- ===== src/Notifier/Attempts.antt =====
-- How often `HttpxWebhookSender.send` (infrastructure/notifications/httpx_sender.py) posts, and
-- what it raises.
use mco_louna_task.Values.{Fields}
use mco_louna_task.Notifier.Sender.{
  call_breaker, check_response, is_http, is_transient, map_send_error, retry_or_raise,
  send_attempts, send_once, send_webhook, send_with_retries,
}
use package.text.Mathlib.Text.{starts_with}
use mco_louna_task.Exec.{Action, Post, World, catch}
use mco_louna_task.Errors.{
  Error, http_other, Result, err, ok, webhook_payload, webhook_sender_unavailable,
  webhook_url_invalid,
}
use mco_louna_task.Base.{
  append_assoc, Bool, Bool-cases, List, String, [], all, ap, arith, false, inl, inr, refl, suc,
  true, zero, ℕ, ◌++◌, ◌+◌, ◌∙◌, ◌∷◌, ◌≡◌, ◌≤◌, ◌⊎◌,
}

abbrev pub replicate : {A : Type 0} → ℕ → A → List A
replicate zero x = []
replicate (suc n) x = x ∷ replicate n x

abbrev pub post_of : String → Fields → ℕ → Post
post_of url payload timeout = record { url = url; payload = payload; timeout = timeout }

-- the errors that are neither tried again nor mapped: a client's error, or what `post` raised
abbrev pub IsPassedOn : Error → Type 0
IsPassedOn e = (e ≡ webhook_payload) ⊎ (e ≡ http_other)

-- between `least` and `most` equal requests were made
abbrev pub HasPosted : Post → ℕ → ℕ → World → World → Type 0
HasPosted p least most w w' =
    (k : ℕ) × (least ≤ k) × (k ≤ most) × (w'.posts ≡ w.posts ++ replicate k p)

abbrev Attempted : Post → ℕ → World → Result (Unit {0}) × World → Type 0
Attempted p n w (ok _, w') = HasPosted p 1 (suc n) w w'
Attempted p n w (err e, w') =
    ((is_transient e ≡ true) × HasPosted p (suc n) (suc n) w w')
    ⊎ (IsPassedOn e × HasPosted p 1 (suc n) w w')

abbrev Once : Post → World → Result (Unit {0}) × World → Type 0
Once p w (ok _, w') = w'.posts ≡ w.posts ++ p ∷ []
Once p w (err e, w') = (w'.posts ≡ w.posts ++ p ∷ []) × ((is_transient e ≡ true) ⊎ IsPassedOn e)

send_once-Once :
    (url : String) (payload : Fields) (timeout : ℕ) (w : World)
    → Once (post_of url payload timeout) w (send_once url payload timeout w)
unfolding send_once check_response
send_once-Once url payload timeout w = ground arith

more_posts :
    (p : Post) (least most : ℕ) (w v w' : World)
    → v.posts ≡ w.posts ++ p ∷ []
    → HasPosted p least most v w'
    → HasPosted p (suc least) (suc most) w w'
more_posts p least most w v w' h (k, low, high, all) = (
  suc k,
  omega arith,
  omega arith,
  all ∙ ap (λ ps. ps ++ replicate k p) h ∙ append_assoc w.posts p (replicate k p),
)

one_post :
    (p : Post) (n : ℕ) (w w' : World) → w'.posts ≡ w.posts ++ p ∷ [] → HasPosted p 1 (suc n) w w'
one_post p n w w' h = (1, omega arith, omega arith, h)

weaken_posts :
    (p : Post) (least most : ℕ) (w w' : World)
    → HasPosted p (suc least) most w w'
    → HasPosted p 1 most w w'
weaken_posts p least most w w' (k, low, high, all) = (k, omega arith, high, all)

next_attempt :
    (p : Post) (n : ℕ) (w v : World) (x : Result (Unit {0}) × World)
    → v.posts ≡ w.posts ++ p ∷ []
    → Attempted p n v x
    → Attempted p (suc n) w x
next_attempt p n w v (ok _, w') h k =
    weaken_posts p 1 (suc (suc n)) w w' (more_posts p 1 (suc n) w v w' h k)
next_attempt p n w v (err e, w') h (inl (transient, k)) =
    inl (transient, more_posts p (suc n) (suc n) w v w' h k)
next_attempt p n w v (err e, w') h (inr (refused, k)) =
    inr (refused, weaken_posts p 1 (suc (suc n)) w w' (more_posts p 1 (suc n) w v w' h k))

after-Once :
    (p : Post) (n : ℕ) (w : World) (again : Action (Unit {0})) (x : Result (Unit {0}) × World)
    → Once p w x
    → ((v : World) → Attempted p n v (again v))
    → Attempted p (suc n) w (catch (λ (_ : World). x) (retry_or_raise again) w)
after-Once p n w again (ok _, v) h rest = one_post p (suc n) w v h
after-Once p n w again (err e, v) (h, inl transient) rest =
    rw transient (next_attempt p n w v (again v) h (rest v))
after-Once p n w again (err e, v) (h, inr (inl refused)) rest =
    rw refused (inr (inl refl, one_post p (suc n) w v h))
after-Once p n w again (err e, v) (h, inr (inr other)) rest =
    rw other (inr (inr refl, one_post p (suc n) w v h))

first_attempt :
    (p : Post) (w : World) (x : Result (Unit {0}) × World) → Once p w x → Attempted p 0 w x
first_attempt p w (ok _, v) h = one_post p 0 w v h
first_attempt p w (err e, v) (h, inl transient) = inl (transient, one_post p 0 w v h)
first_attempt p w (err e, v) (h, inr refused) = inr (refused, one_post p 0 w v h)

send_attempts-Attempted :
    (n : ℕ) (url : String) (payload : Fields) (timeout : ℕ) (w : World)
    → Attempted (post_of url payload timeout) n w (send_attempts n url payload timeout w)
unfolding send_attempts
send_attempts-Attempted zero url payload timeout w =
    first_attempt (post_of url payload timeout) w (send_once url payload timeout w)
      (send_once-Once url payload timeout w)
send_attempts-Attempted (suc n) url payload timeout w =
    after-Once (post_of url payload timeout) n w (send_attempts n url payload timeout)
      (send_once url payload timeout w) (send_once-Once url payload timeout w)
      (send_attempts-Attempted n url payload timeout)

abbrev pub HasHttpScheme : String → Type 0
HasHttpScheme url = (starts_with url "http://" ≡ true) ⊎ (starts_with url "https://" ≡ true)

scheme : (url : String) → is_http url ≡ true → HasHttpScheme url
unfolding is_http
scheme url h = ground arith

no_scheme : (url : String) → is_http url ≡ false → ¬ HasHttpScheme url
unfolding is_http
no_scheme url h = ground arith

-- What a call of `send` has done when it returns or raises.
abbrev pub Outcome : String → Fields → ℕ → World → Result (Unit {0}) × World → Type 0
Outcome url payload timeout w (ok _, w') =
    HasHttpScheme url × HasPosted (post_of url payload timeout) 1 3 w w'
Outcome url payload timeout w (err e, w') =
    ((e ≡ webhook_url_invalid) × (¬ HasHttpScheme url) × (w'.posts ≡ w.posts))
    ⊎ (IsPassedOn e × HasPosted (post_of url payload timeout) 1 3 w w')
    ⊎ ((e ≡ webhook_sender_unavailable)
        × ((w'.posts ≡ w.posts) ⊎ HasPosted (post_of url payload timeout) 3 3 w w'))

map-Outcome :
    (url : String) (payload : Fields) (timeout : ℕ) (w : World) (x : Result (Unit {0}) × World)
    → is_http url ≡ true
    → Attempted (post_of url payload timeout) 2 w x
    → Outcome url payload timeout w (catch (λ (_ : World). x) map_send_error w)
map-Outcome url payload timeout w (ok _, v) valid h = (scheme url valid, h)
map-Outcome url payload timeout w (err e, v) valid (inl (transient, h)) =
    rw transient (inr (inr (refl, inr h)))
map-Outcome url payload timeout w (err e, v) valid (inr (inl refused, h)) =
    rw refused (inr (inl (inl refl, h)))
map-Outcome url payload timeout w (err e, v) valid (inr (inr other, h)) =
    rw other (inr (inl (inr refl, h)))

breaker-Outcome :
    (url : String) (payload : Fields) (timeout : ℕ) (w v : World) (is_open : Bool)
    → is_http url ≡ true
    → v.posts ≡ w.posts
    → Attempted (post_of url payload timeout) 2 v (send_attempts 2 url payload timeout v)
    → Outcome url payload timeout v (call_breaker is_open (send_attempts 2 url payload timeout) v)
breaker-Outcome url payload timeout w v true valid same h = inr (inr (refl, inl refl))
breaker-Outcome url payload timeout w v false valid same h =
    map-Outcome url payload timeout v (send_attempts 2 url payload timeout v) valid h

-- Every call of `send` ends in one of these ways, where a request is a call of `client.post`. It
-- returns after one to three equal requests. Or it raises: `WebhookUrlInvalidError` before any
-- request, exactly for a URL that starts with neither http:// nor https://; `WebhookPayloadError`
-- or, not mapped, another exception of `client.post` after one to three requests; or
-- `WebhookSenderUnavailableError`, with no request or after all three.
pub send_webhook-Outcome :
    (url : String) (payload : Fields) (timeout : ℕ) (w : World)
    → Outcome url payload timeout w (send_webhook url payload timeout w)
unfolding send_webhook send_with_retries
send_webhook-Outcome url payload timeout w = elim (Bool-cases (is_http url)) [
  | inl valid ↦ rw valid (
      breaker-Outcome url payload timeout w (record w { tick = w.tick + 1 })
        (w.env.breaker_open w.tick) valid refl
        (send_attempts-Attempted 2 url payload timeout (record w { tick = w.tick + 1 })))
  | inr invalid ↦ rw invalid (inl (refl, no_scheme url invalid, refl))
]
