-- ===== src/Tenant/Provider/Keys.antt =====
-- The keys of sdk/pkg/tenant/provider/provider.go: the functions of `strings` and `strconv` that it
-- calls, and its tests of a key.
use Prim.Native.Char.{Char, code}
use Prim.Native.String.{len, slice}
use text.Mathlib.Text.{starts_with}
use jxt_core.Base.{
  ℕ, zero, suc, ◌+◌, ◌-◌, ◌*◌, ◌==◌, ltb, leb, ℤ, pos, negsuc, max_int, String, str_eq, length,
  Bool, not, ◌≡◌, refl, ◌&&◌, ◌||◌, Option, none, some, List, [], ◌∷◌, if◌then◌else◌,
}

abbrev pub slash : ℕ
slash = 47

abbrev pub in_front : Char → List String → List String
in_front c [] = (String.◌∷◌ c String.[]) ∷ []
in_front c (s ∷ ss) = (String.◌∷◌ c s) ∷ ss

-- strings.Split, at a separator of one character.
unfoldable pub split_on : ℕ → String → List String
split_on sep String.[] = "" ∷ []
split_on sep (String.◌∷◌ c s) =
    let rest = split_on sep s in if code c == sep then "" ∷ rest else in_front c rest

unfoldable pub split_key : String → List String
unfolding split_on
split_key key = split_on slash key

-- strings.HasSuffix
unfoldable pub ends_with : String → String → Bool
ends_with String.[] t = str_eq "" t
ends_with (String.◌∷◌ c s) t = let rest = ends_with s t in str_eq (String.◌∷◌ c s) t || rest

-- strings.TrimPrefix
unfoldable pub trim_prefix : String → String → String
trim_prefix s p = if starts_with s p then slice s (len p) (len s) else s

-- parts[i]; every call stands behind a test that the part is there.
unfoldable pub part_at : ℕ → List String → String
part_at i [] = ""
part_at zero (p ∷ ps) = p
part_at (suc i) (p ∷ ps) = part_at i ps

-- A number's decimal digits, after those that have the value `n`.
unfoldable pub digits_from : ℕ → String → Option ℕ
digits_from n String.[] = some n
digits_from n (String.◌∷◌ c s) =
    let rest = digits_from (n * 10 + (code c - 48)) s in
    if leb 48 (code c) && leb (code c) 57 then rest else none

unfoldable pub digits_of : String → Option ℕ
unfolding digits_from
digits_of String.[] = none
digits_of (String.◌∷◌ c s) = digits_from 0 (String.◌∷◌ c s)

abbrev pub positive : Option ℕ → Option ℤ
positive none = none
positive (some n) = if leb n max_int then some (pos n) else none

abbrev pub negative : Option ℕ → Option ℤ
negative none = none
negative (some zero) = some (pos 0)
negative (some (suc n)) = if leb n max_int then some (negsuc n) else none

-- strconv.Atoi, an error being `none`.
unfoldable pub atoi : String → Option ℤ
unfolding digits_of
atoi String.[] = none
atoi (String.◌∷◌ c s) =
    if code c == 45
    then negative (digits_of s)
    else if code c == 43
    then positive (digits_of s)
    else positive (digits_of (String.◌∷◌ c s))

-- `len(parts) >= 4 && parts[0] == "tenants" && parts[2] == …`
abbrev pub is_part_2 : String → String → Bool
is_part_2 key kind =
    leb 4 (length (split_key key))
    && str_eq (part_at 0 (split_key key)) "tenants"
    && str_eq (part_at 2 (split_key key)) kind

unfoldable pub is_tenant_meta_key : String → Bool
unfolding ends_with
is_tenant_meta_key key = ends_with key "/meta" && starts_with key "tenants/"

unfoldable pub is_service_database_key : String → Bool
unfolding split_key part_at
is_service_database_key key = is_part_2 key "database"

unfoldable pub is_ftp_config_key : String → Bool
unfolding split_key part_at
is_ftp_config_key key = is_part_2 key "ftp"

unfoldable pub is_storage_config_key : String → Bool
unfolding ends_with
is_storage_config_key key = ends_with key "/storage" && starts_with key "tenants/"

unfoldable pub is_domain_primary_key : String → Bool
unfolding split_key part_at
is_domain_primary_key key = is_part_2 key "domain" && str_eq (part_at 3 (split_key key)) "primary"

unfoldable pub is_domain_aliases_key : String → Bool
unfolding split_key part_at
is_domain_aliases_key key = is_part_2 key "domain" && str_eq (part_at 3 (split_key key)) "aliases"

unfoldable pub is_domain_internal_key : String → Bool
unfolding split_key part_at
is_domain_internal_key key = is_part_2 key "domain" && str_eq (part_at 3 (split_key key)) "internal"

unfoldable pub is_wvp_config_key : String → Bool
unfolding split_key part_at
is_wvp_config_key key = is_part_2 key "platform" && str_eq (part_at 3 (split_key key)) "wvp"

unfoldable pub is_resolver_config_key : String → Bool
is_resolver_config_key key = str_eq key "common/resolver"

-- Which keys a watch looks at: all of tenants/ but the internal index, and two of common/.
unfoldable pub is_known_watch_key : String → Bool
is_known_watch_key key =
    if starts_with key "tenants/"
    then not (starts_with key "tenants/_index/")
    else str_eq key "common/resolver" || str_eq key "common/storage-directory"

-- parseTenantID: the tenant of a whole key.
unfoldable pub parse_tenant_id : String → String → Option ℤ
unfolding trim_prefix split_key part_at atoi
parse_tenant_id namespace key =
    if not (starts_with key namespace)
    then none
    else (let parts = split_key (trim_prefix key namespace) in
        if ltb (length parts) 2 || not (str_eq (part_at 0 parts) "tenants")
        then none
        else atoi (part_at 1 parts))

key_test : atoi (part_at 1 (split_key "tenants/-12/meta")) ≡ some (negsuc 11)
unfolding atoi part_at split_key split_on
key_test = refl
