-- ===== src/Crypto/Examples.antt =====
-- An example of sdk/pkg/crypto, over a cipher that leaves the text as it is.
use Prim.Native.Char.{code}
use text.Mathlib.TextLemmas.{cons-ne-nil}
use jxt_core.Base.{
  ℕ, zero, suc, ◌==◌, length, ◌+◌, pos, String, ◌≡◌, refl, ap, ◌∙◌, true, [], ◌∷◌, if◌then◌else◌,
  arith,
}
use jxt_core.Outbox.Event.{errorf}
use jxt_core.Outbox.Repository.{ok, err}
use jxt_core.Tenant.Provider.Models.{ServiceDatabaseConfig}
use jxt_core.Crypto.{
  Bytes, Library, IsLibrary, CryptoService, new_crypto_service, encrypt, decrypt_password,
  decrypt_password-encrypt,
}

-- A number as that many ones.
ones : ℕ → String → String
ones zero s = s
ones (suc n) s = String.◌∷◌ "1" (ones n s)

encode_text : Bytes → String
unfolding ones
encode_text [] = String.[]
encode_text (b ∷ bs) = ones b (String.◌∷◌ "," (encode_text bs))

one_more : Bytes → Bytes
one_more [] = []
one_more (b ∷ bs) = suc b ∷ bs

decode_text : String → Bytes
unfolding one_more
decode_text String.[] = []
decode_text (String.◌∷◌ c s) =
    let rest = decode_text s in if code c == 49 then one_more rest else 0 ∷ rest

decode_text-ones :
    (n m : ℕ) (s : String) (bs : Bytes)
    → decode_text s ≡ m ∷ bs
    → decode_text (ones n s) ≡ (n + m) ∷ bs
unfolding decode_text ones one_more
decode_text-ones zero m s bs h = h ∙ ap (λ k. k ∷ bs) (omega arith)
decode_text-ones (suc n) m s bs h =
    ap one_more (decode_text-ones n m s bs h) ∙ ap (λ k. k ∷ bs) (omega arith)

decode_text-encode_text : (bs : Bytes) → decode_text (encode_text bs) ≡ bs
unfolding decode_text encode_text
decode_text-encode_text [] = refl
decode_text-encode_text (b ∷ bs) =
    decode_text-ones b 0 (String.◌∷◌ "," (encode_text bs)) bs
      (ap (λ r. 0 ∷ r) (decode_text-encode_text bs))
    ∙ ap (λ k. k ∷ bs) (omega arith)

encode_text_full : (bs : Bytes) → encode_text bs ≡ "" → bs ≡ []
unfolding encode_text ones
encode_text_full [] h = refl
encode_text_full (zero ∷ bs) h = absurd (cons-ne-nil "," (encode_text bs) h)
encode_text_full ((suc b) ∷ bs) h =
    absurd (cons-ne-nil "1" (ones b (String.◌∷◌ "," (encode_text bs))) h)

open_library : Library
unfolding encode_text decode_text
open_library = record {
  Block = Unit;
  Gcm = Unit;
  new_cipher =
      λ key. if length key == 32 then ok tt else err (errorf ("crypto/aes: invalid key size" ∷ []));
  new_gcm = λ b. ok tt;
  nonce_size = λ g. 12;
  seal = λ g nonce plain. plain;
  open_sealed = λ g nonce sealed. ok sealed;
  encode = encode_text;
  decode = λ s. ok (decode_text s);
}

open_library-IsLibrary : IsLibrary open_library
unfolding open_library
open_library-IsLibrary = record {
  cipher_32 = λ key h. (tt, rw h refl);
  gcm_made = λ b. (tt, refl);
  nonce_size_12 = λ g. refl;
  open_sealed-seal = λ g nonce plain h. refl;
  decode-encode = λ b. ap ok (decode_text-encode_text b);
  encode_full = encode_text_full;
}

abbrev copies : ℕ → ℕ → Bytes
copies zero b = []
copies (suc n) b = b ∷ copies n b

abbrev stored_config : ServiceDatabaseConfig
stored_config = record {
  tenant_id = pos 7;
  service_code = "evidence";
  driver = "mysql";
  host = "db";
  port = pos 3306;
  database = "evidence";
  username = "app";
  password = "";
  ssl_mode = "";
  max_open_conns = pos 10;
  max_idle_conns = pos 5;
  password_encrypted = true;
}

decrypt_password-encrypt_example :
    (s : CryptoService) × (text : String) × (new_crypto_service (copies 32 7) ≡ ok s)
    × (encrypt open_library s (ok (copies 12 9)) (115 ∷ 51 ∷ []) ≡ ok text)
    × (decrypt_password open_library (record stored_config { password = text }) (copies 32 7)
        ≡ ok (115 ∷ 51 ∷ []))
decrypt_password-encrypt_example =
    decrypt_password-encrypt open_library open_library-IsLibrary (copies 32 7) (copies 12 9)
      (115 ∷ 51 ∷ []) stored_config refl refl refl
