-- ===== src/Auth/Access.antt =====
-- Which requests the middleware of pkg/auth lets through, with the key store and the cache behind it.
use netping.Common.{
  ℕ, ◌+◌, ◌≡◌, refl, ap, ap₂, ◌∙◌, Str, codes, str_eq, is_empty, Bool, true, false, Bool-cases, inl,
  inr, some, List, [], ◌∷◌, Time, All, if◌then◌else◌,
}
use netping.Auth.Verifier.{Crypto, Cache, cache_text}
use netping.Auth.Keystore.{Keystore, File, hashes, hot_reload, verify_any, validate_key}
use netping.Auth.Middleware.{
  Request, Reply, no_content, unauthorized, calls_next, extract_api_key, require_auth,
}
use netping.Auth.Cache.{IsNulFree, IsFaithful, Answers, is_match, verify_key-Answers}

-- A request, with what the file system and the clock answer while it is handled.
pub record Event : Type 0 where
  pub file : File
  pub clock : ℕ → Time
  pub request : Request

module _ (cr : Crypto) where
  abbrev pub any_match : Str → List Str → Bool
  any_match key [] = false
  any_match key (h ∷ hs) = if is_match cr key h then true else any_match key hs

  -- The answers of the middleware over the key store to a row of requests, the oldest first.
  unfoldable pub serve : List Event → Keystore × Cache → List Reply
  serve [] s = []
  serve (e ∷ es) s =
      let r = require_auth (some (validate_key cr e.file e.clock)) e.request s in r.0 ∷ serve es r.1

  -- Whether a request reaches the key store.
  abbrev pub asks : Request → Bool
  asks r =
      if str_eq r.method (codes "OPTIONS")
      then false
      else if is_empty (extract_api_key r)
      then false
      else true

  -- The key store after a request.
  abbrev pub store_after : Event → Keystore → Keystore
  store_after e ks = if asks e.request then hot_reload e.file ks else ks

  -- The answer to a request: 204 to a preflight; otherwise the handler is called exactly if the
  -- request carries a key that matches one of the hashes of the key store, which is reloaded first.
  abbrev pub reply_to : Event → Keystore → Reply
  reply_to e ks =
      if str_eq e.request.method (codes "OPTIONS")
      then no_content
      else if is_empty (extract_api_key e.request)
      then unauthorized
      else if any_match (extract_api_key e.request) (hashes (hot_reload e.file ks))
      then calls_next
      else unauthorized

  unfoldable pub replies : List Event → Keystore → List Reply
  replies [] ks = []
  replies (e ∷ es) ks = reply_to e ks ∷ replies es (store_after e ks)

  module _ (Asked : Str → Type 0)
      (collision_free : (s t : Str) → Asked s → Asked t → cr.sum256 s ≡ cr.sum256 t → s ≡ t) where
    verify_any-Answers :
        (clock : ℕ → Time) (n : ℕ) (key : Str) (hs : List Str) (cache : Cache)
        → IsNulFree key
        → All (λ h. Asked (cache_text key h)) hs
        → IsFaithful cr Asked collision_free cache
        → Answers cr Asked collision_free (verify_any cr clock n key hs cache) (any_match key hs)
    unfolding verify_any
    verify_any-Answers clock n key [] cache nul asked faithful = (refl, faithful)
    verify_any-Answers clock n key (h ∷ hs) cache nul asked faithful =
        let a =
          verify_key-Answers cr Asked collision_free (clock n) key h cache nul asked.0 faithful in
        elim (Bool-cases (is_match cr key h)) [
          | inl e ↦ rw (a.0, e) (refl, a.1)
          | inr e ↦ rw (a.0, e) (verify_any-Answers clock (n + 1) key hs _ nul asked.1 a.1)
        ]

    -- The keys of a row of requests are free of NUL, and the texts that the key store asks about for
    -- them are among those.
    unfoldable pub AreAsked : List Event → Keystore → Type 0
    AreAsked [] ks = Unit
    AreAsked (e ∷ es) ks =
        (IsNulFree (extract_api_key e.request)
          × All (λ h. Asked (cache_text (extract_api_key e.request) h))
              (hashes (hot_reload e.file ks)))
        × AreAsked es (store_after e ks)

    abbrev Handled : Event → Keystore → Reply × (Keystore × Cache) → Type 0
    Handled e ks r =
        (r.0 ≡ reply_to e ks)
        × (r.1.0 ≡ store_after e ks)
        × IsFaithful cr Asked collision_free r.1.1

    require_auth-Handled :
        (e : Event) (ks : Keystore) (cache : Cache)
        → IsNulFree (extract_api_key e.request)
        → All
            (λ h. Asked (cache_text (extract_api_key e.request) h))
            (hashes (hot_reload e.file ks))
        → IsFaithful cr Asked collision_free cache
        → Handled e ks (require_auth (some (validate_key cr e.file e.clock)) e.request (ks, cache))
    unfolding require_auth validate_key
    require_auth-Handled e ks cache nul asked faithful =
        elim (Bool-cases (str_eq e.request.method (codes "OPTIONS"))) [
          | inl o ↦ rw o (refl, refl, faithful)
          | inr o ↦ elim (Bool-cases (is_empty (extract_api_key e.request))) [
            | inl z ↦ rw (o, z) (refl, refl, faithful)
            | inr z ↦
                let a =
                  verify_any-Answers e.clock 0 (extract_api_key e.request)
                    (hashes (hot_reload e.file ks)) cache nul asked faithful in
                rw (o, z) (ap (λ b. if b then calls_next else unauthorized) a.0, refl, a.1)
          ]
        ]

    serve_from :
        (es : List Event) (ks : Keystore) (cache : Cache)
        → AreAsked es ks
        → IsFaithful cr Asked collision_free cache
        → serve es (ks, cache) ≡ replies es ks
    unfolding serve replies AreAsked
    serve_from [] ks cache asked faithful = refl
    serve_from (e ∷ es) ks cache asked faithful =
        let h = require_auth-Handled e ks cache asked.0.0 asked.0.1 faithful in
        let r = require_auth (some (validate_key cr e.file e.clock)) e.request (ks, cache) in
        ap₂ (λ reply rest. reply ∷ rest) h.0
          (ap (λ k. serve es (k, r.1.1)) h.1 ∙ serve_from es (store_after e ks) r.1.1 asked.1 h.2)

    -- In any row of requests, from the empty cache, whatever the clock and the file of the key store
    -- do in between, the middleware answers a preflight with 204 and lets any other request through
    -- exactly if it carries a key that matches one of the hashes that the key store then holds (after
    -- its hot reload), and answers it with 401 otherwise. The conditions are that SHA-256 has no
    -- collision among the texts asked about and that no key contains a NUL.
    pub serve_lem :
        (es : List Event) (ks : Keystore) → AreAsked es ks → serve es (ks, []) ≡ replies es ks
    serve_lem es ks asked = serve_from es ks [] asked tt
