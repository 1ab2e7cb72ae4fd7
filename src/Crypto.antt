-- ===== src/Crypto.antt =====
-- sdk/pkg/crypto, and the decryption of a stored password (sdk/pkg/tenant/provider/models.go). A Go
-- string is the list of its bytes where it is encrypted, and a text where it is Base64.
mod Examples
use Prim.Native.String.{◌++◌ as str_plus}
use jxt_core.Base.{
  ℕ, ◌==◌, ltb, length, length-append, take, concat, ◌+◌, ◌-◌, String, str_eq, eq_iff, ◌≡◌, ◌≢◌,
  refl, ap, sym, ◌∙◌, Bool, true, false, not, List, [], ◌∷◌, ◌++◌, if◌then◌else◌, arith, zero, suc,
  Bool-cases, inl, inr,
}
use jxt_core.Outbox.Event.{Error, errorf, wrapf, wrapped}
use jxt_core.Outbox.Repository.{Result, ok, err}
use jxt_core.Tenant.Provider.Models.{ServiceDatabaseConfig}

abbrev pub Bytes : Type 0
Bytes = List ℕ

-- crypto/aes, crypto/cipher and encoding/base64. `seal` is what Seal appends to its first argument.
pub record Library : Type 1 where
  pub Block : Type 0
  pub Gcm : Type 0
  pub new_cipher : Bytes → Result Block
  pub new_gcm : Block → Result Gcm
  pub nonce_size : Gcm → ℕ
  pub seal : Gcm → Bytes → Bytes → Bytes
  pub open_sealed : Gcm → Bytes → Bytes → Result Bytes
  pub encode : Bytes → String
  pub decode : String → Result Bytes

-- What their documentation says.
pub record IsLibrary (l : Library) : Type 0 where
  pub cipher_32 : (key : Bytes) → length key ≡ 32 → (b : l.Block) × (l.new_cipher key ≡ ok b)
  pub gcm_made : (b : l.Block) → (g : l.Gcm) × (l.new_gcm b ≡ ok g)
  pub nonce_size_12 : (g : l.Gcm) → l.nonce_size g ≡ 12
  pub open_sealed-seal :
      (g : l.Gcm) (nonce plain : Bytes)
      → length nonce ≡ 12
      → l.open_sealed g nonce (l.seal g nonce plain) ≡ ok plain
  pub decode-encode : (b : Bytes) → l.decode (l.encode b) ≡ ok b
  pub encode_full : (b : Bytes) → l.encode b ≡ "" → b ≡ []

abbrev pub err_invalid_key_length : Error
err_invalid_key_length = errorf ("encryption key must be 32 bytes" ∷ [])

abbrev pub err_invalid_ciphertext : Error
err_invalid_ciphertext = errorf ("invalid ciphertext format" ∷ [])

abbrev pub err_decryption_failed : Error
err_decryption_failed = errorf ("decryption failed: authentication failed" ∷ [])

-- fmt.Errorf("%w: %v", first, second)
abbrev pub both_errors : Error → Error → Error
both_errors first second = record {
  kind = wrapped;
  text = concat (first.text ∷ ": " ∷ second.text ∷ []);
}

pub record CryptoService : Type 0 where
  pub key : Bytes

unfoldable pub new_crypto_service : Bytes → Result CryptoService
new_crypto_service key =
    if not (length key == 32) then err err_invalid_key_length else ok (record { key = key })

-- The bytes from the n-th on.
abbrev pub drop : {A : Type 0} → ℕ → List A → List A
drop zero xs = xs
drop (suc n) [] = []
drop (suc n) (x ∷ xs) = drop n xs

module _ (l : Library) where
  -- The cipher and its GCM mode.
  abbrev pub with_gcm : {A : Type 0} → CryptoService → (l.Gcm → Result A) → Result A
  with_gcm s f = elim (l.new_cipher s.key) [
    | err e ↦ err (wrapf "failed to create cipher: " e)
    | ok block ↦ elim (l.new_gcm block) [
      | err e ↦ err (wrapf "failed to create GCM: " e)
      | ok gcm ↦ f gcm
    ]
  ]

  -- What reading the random bytes of the nonce gives is an argument.
  unfoldable pub encrypt : CryptoService → Result Bytes → Bytes → Result String
  encrypt s random plaintext = with_gcm s (λ gcm. elim random [
    | err e ↦ err (wrapf "failed to generate nonce: " e)
    | ok nonce ↦ ok (l.encode (nonce ++ l.seal gcm nonce plaintext))
  ])

  abbrev pub opened : Result Bytes → Result Bytes
  opened (err e) = err err_decryption_failed
  opened (ok plaintext) = ok plaintext

  unfoldable pub decrypt : CryptoService → String → Result Bytes
  decrypt s text = elim (l.decode text) [
    | err e ↦ err (both_errors err_invalid_ciphertext e)
    | ok sealed ↦ with_gcm s (λ gcm.
        if ltb (length sealed) (l.nonce_size gcm)
        then err err_invalid_ciphertext
        else opened
            (l.open_sealed gcm (take (l.nonce_size gcm) sealed) (drop (l.nonce_size gcm) sealed)))
  ]

  abbrev pub wrap_error : {A : Type 0} → String → Result A → Result A
  wrap_error prefix (err e) = err (wrapf prefix e)
  wrap_error prefix (ok a) = ok a

  unfoldable pub decrypt_password : ServiceDatabaseConfig → Bytes → Result Bytes
  unfolding decrypt new_crypto_service
  decrypt_password c key =
      if str_eq c.password ""
      then err (errorf ("password is empty" ∷ []))
      else if not c.password_encrypted
      then err (errorf ("password is not encrypted" ∷ []))
      else elim (new_crypto_service key) [
        | err e ↦ err (wrapf "failed to create crypto service: " e)
        | ok s ↦ wrap_error "failed to decrypt password: " (decrypt s c.password)
      ]

take-append : (xs ys : Bytes) (n : ℕ) → length xs ≡ n → take n (xs ++ ys) ≡ xs
take-append [] ys zero h = refl
take-append [] ys (suc n) h = absurd (omega (arith, h))
take-append (x ∷ xs) ys zero h = absurd (omega (arith, h))
take-append (x ∷ xs) ys (suc n) h = ap (◌∷◌ x) (take-append xs ys n (omega (arith, h)))

drop-append : (xs ys : Bytes) (n : ℕ) → length xs ≡ n → drop n (xs ++ ys) ≡ ys
drop-append [] ys zero h = refl
drop-append [] ys (suc n) h = absurd (omega (arith, h))
drop-append (x ∷ xs) ys zero h = absurd (omega (arith, h))
drop-append (x ∷ xs) ys (suc n) h = drop-append xs ys n (omega (arith, h))

module _ (l : Library) (laws : IsLibrary l) where
  -- The mode that a key gives.
  abbrev IsMade : CryptoService → l.Gcm → Type 0
  IsMade s g = (b : l.Block) × (l.new_cipher s.key ≡ ok b) × (l.new_gcm b ≡ ok g)

  gcm_of : (s : CryptoService) → length s.key ≡ 32 → (g : l.Gcm) × IsMade s g
  gcm_of s h =
      let (block, made) = laws.cipher_32 s.key h in
      let (gcm, mode) = laws.gcm_made block in (gcm, (block, made, mode))

  with_gcm-ok :
      {A : Type 0} (s : CryptoService) (g : l.Gcm) (f : l.Gcm → Result A)
      → IsMade s g
      → with_gcm l s f ≡ f g
  with_gcm-ok s g f (block, made, mode) = rw (made, with_gcm) (rw (mode) refl)

  encrypt-ok :
      (s : CryptoService) (g : l.Gcm) (nonce plain : Bytes)
      → IsMade s g
      → encrypt l s (ok nonce) plain ≡ ok (l.encode (nonce ++ l.seal g nonce plain))
  unfolding encrypt
  encrypt-ok s g nonce plain made = with_gcm-ok s g _ made

  decrypt-encode :
      (s : CryptoService) (g : l.Gcm) (nonce plain : Bytes)
      → IsMade s g
      → length nonce ≡ 12
      → decrypt l s (l.encode (nonce ++ l.seal g nonce plain)) ≡ ok plain
  unfolding decrypt
  decrypt-encode s g nonce plain made h =
      rw (laws.decode-encode (nonce ++ l.seal g nonce plain), decrypt)
        (with_gcm-ok s g _ made
          ∙ rw
              (
                laws.nonce_size_12 g,
                long_enough,
                take-append nonce (l.seal g nonce plain) 12 h,
                drop-append nonce (l.seal g nonce plain) 12 h,
                laws.open_sealed-seal g nonce plain h,
              )
              refl)
    where
      long_enough : ltb (length (nonce ++ l.seal g nonce plain)) 12 ≡ false
      long_enough = ground (arith, length-append nonce (l.seal g nonce plain), h)

  encode-not_empty :
      (g : l.Gcm) (nonce plain : Bytes)
      → length nonce ≡ 12
      → str_eq (l.encode (nonce ++ l.seal g nonce plain)) "" ≡ false
  encode-not_empty g nonce plain h = elim (Bool-cases (str_eq text "")) [
    | inr full ↦ full
    | inl blank ↦ absurd (
        omega (
          arith,
          h,
          length-append nonce (l.seal g nonce plain),
          ap length (laws.encode_full (nonce ++ l.seal g nonce plain) ((eq_iff text "").0 blank)),
        ))
  ]
    where
      text : String
      text = l.encode (nonce ++ l.seal g nonce plain)

  -- With a key of 32 bytes and a nonce of 12, encrypting a plaintext succeeds, and a configuration that
  -- has the result as its encrypted password gives the plaintext back under the same key.
  pub decrypt_password-encrypt :
      (key nonce plain : Bytes) (c : ServiceDatabaseConfig)
      → length key ≡ 32
      → length nonce ≡ 12
      → c.password_encrypted ≡ true
      → (s : CryptoService) × (text : String) × (new_crypto_service key ≡ ok s)
        × (encrypt l s (ok nonce) plain ≡ ok text)
        × (decrypt_password l (record c { password = text }) key ≡ ok plain)
  unfolding decrypt_password new_crypto_service
  decrypt_password-encrypt key nonce plain c h n e =
      let s : CryptoService = record { key = key } in
      let (g, made) = gcm_of s h in
      (
        s,
        l.encode (nonce ++ l.seal g nonce plain),
        rw h refl,
        encrypt-ok s g nonce plain made,
        rw
            (
              encode-not_empty g nonce plain n,
              decrypt_password,
              e,
              h,
              decrypt-encode s g nonce plain made n,
            )
            refl,
      )
