-- ===== src/Api/Tokens/Laws.antt =====
-- What is stored, read back and removed.
use gsd.Prelude.{
  ◌≡◌, refl, true, false, none, some, String, Option, arith, Bool-cases, inl, inr, ◌==◌, string_eq,
}
use gsd.Dates.{Host}
use gsd.Api.Tokens.{
  Device, Storage, Tokens, present, keep, has_passed, save_preferences, save_tokens,
  get_refresh_token, get_refresh_token_expiry, clear_preferences, is_refresh_token_expired,
  clear_all_tokens,
}

present_again : (v : Option String) (x : String) → present v ≡ some x → present (some x) ≡ some x
present_again none x e = cc e
present_again (some y) x e = elim (Bool-cases (y == "")) [
  | inl h ↦ cc (rw h at e)
  | inr h ↦
      let same : y ≡ x = cc (rw h at e) in let h' : (x == "") ≡ false = rw same at h in rw h' refl
]

saved :
    (device : Device) (t : Tokens) (store : String → Option String) (token expiry : String)
    → (device.sets "refresh_token" ≡ true) × (device.sets "refresh_token_expiry" ≡ true)
    → present t.refresh_token ≡ some token
    → present t.refresh_token_expiry ≡ some expiry
    → (save_preferences device t store "refresh_token" ≡ some token)
      × (save_preferences device t store "refresh_token_expiry" ≡ some expiry)
unfolding save_preferences
saved device t store token expiry (a, b) p q =
    rw (p, save_preferences) (rw (a, b) (rw (q, keep) (refl, refl)))

-- If the native store works, and a refresh token is saved with an expiry, then on a native
-- platform it is taken as expired exactly if the expiry has passed or cannot be read, and is read
-- back; on the web it is never taken as expired, and none is read back.
pub save_tokens-is_refresh_token_expired :
    (host : Host) (device : Device) (t : Tokens) (s : Storage) (token expiry : String)
    → (device.sets "refresh_token" ≡ true) × (device.sets "refresh_token_expiry" ≡ true)
    → (device.gets "refresh_token" ≡ true) × (device.gets "refresh_token_expiry" ≡ true)
    → present t.refresh_token ≡ some token
    → present t.refresh_token_expiry ≡ some expiry
    → (device.native ≡ true
        → (is_refresh_token_expired device host (save_tokens device t s) ≡ has_passed host expiry)
          × (get_refresh_token device (save_tokens device t s) ≡ some token))
      × (device.native ≡ false
          → (is_refresh_token_expired device host (save_tokens device t s) ≡ false)
            × (get_refresh_token device (save_tokens device t s) ≡ none))
unfolding save_tokens get_refresh_token get_refresh_token_expiry is_refresh_token_expired
save_tokens-is_refresh_token_expired host device t s token expiry a (c, d) p q =
    let (saved_token, saved_expiry) = saved device t s.preferences token expiry a p q in
    (
      λ n.
          simp (n, c, d, saved_token, saved_expiry, present_again t.refresh_token_expiry expiry q)
            (refl, refl),
      λ n. simp n (refl, refl),
    )

-- If it does not run already and the native store works, `clearAllTokens` leaves no access token
-- and no refresh token that could be read, and a refresh token is then taken as expired exactly on
-- a native platform; the expiry of the refresh token that is kept in `localStorage` stays there.
pub clear_all_tokens_lem :
    (host : Host) (device : Device) (s : Storage)
    → s.clearing ≡ false
    → (device.removes "refresh_token" ≡ true) × (device.removes "refresh_token_expiry" ≡ true)
    → ((clear_all_tokens device s).local "token" ≡ none)
      × ((clear_all_tokens device s).local "token_expiry" ≡ none)
      × (get_refresh_token device (clear_all_tokens device s) ≡ none)
      × (is_refresh_token_expired device host (clear_all_tokens device s) ≡ device.native)
      × ((clear_all_tokens device s).local "refresh_token_expiry" ≡ s.local "refresh_token_expiry")
unfolding clear_all_tokens clear_preferences get_refresh_token get_refresh_token_expiry
    is_refresh_token_expired
clear_all_tokens_lem host device s e (a, b) = elim (Bool-cases device.native) [
  | inl n ↦ simp (e, n, a, b) (refl, refl, ground arith, ground arith, refl)
  | inr n ↦ simp (e, n, a, b) (refl, refl, refl, refl, refl)
]
