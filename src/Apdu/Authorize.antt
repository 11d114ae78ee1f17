-- ===== src/Apdu/Authorize.antt =====
-- APDU_Authorize_Request of EIBCommNEO/apdu.cpp: the key of four bytes that opens a device.
use edifice.Base.{
  ℕ, Bool, true, false, if◌then◌else◌, ◌==◌, ◌≡◌, refl, List, [], ◌∷◌, Option, some, none, Outcome,
  ret, ◌>>=◌, slice, memcpy, store, fill, Retcode, success, failure,
}
use edifice.Apdu.Types.{Env, Apdu, Addr, resize, basic_info}

-- The size of the request and the place of the key, by the setting `faulty_authorize`.
abbrev pub size_of : Bool → ℕ
size_of true = 8
size_of false = 7

abbrev pub key_pos : Bool → ℕ
key_pos true = 4
key_pos false = 3

unfoldable pub store_key : Bool → List ℕ → List ℕ → Outcome (List ℕ)
unfolding store slice memcpy
store_key faulty mem₀ key = do
  mem₁ ← store mem₀ 2 0
  mem₂ ← store mem₁ 3 0
  bytes ← slice key 0 4
  memcpy mem₂ (key_pos faulty) bytes

-- `APDU_Authorize_Request::BuildMe`; a null address or key is `none`.
unfoldable pub build_request :
    Env → Apdu → ℕ → ℕ → ℕ → Option Addr → Option (List ℕ) → Outcome (Apdu × Retcode)
unfolding resize basic_info
build_request env a ack_request priority hop_count_type none key = ret (a, failure 1)
build_request env a ack_request priority hop_count_type (some asap) none = ret (a, failure 1)
build_request env a ack_request priority hop_count_type (some asap) (some key) =
    let faulty = env.faulty_authorize in
    let b =
      basic_info ack_request priority hop_count_type (some asap)
        (resize env (size_of faulty) a).0 in
    store_key faulty b.apdu_mem key >>= λ mem. ret (record b { apdu_mem = mem }, success)

unfoldable pub load_key : Bool → List ℕ → ℕ → Outcome (Option (List ℕ))
unfolding slice
load_key faulty mem len =
    let copy = slice mem (key_pos faulty) 4 >>= λ key. ret (some key) in
    if len == size_of faulty then copy else ret none

-- `APDU_Authorize_Request::GetParams`; `none` is the return code -1.
unfoldable pub get_request_params : Env → Apdu → Outcome (Option (List ℕ))
get_request_params env a = load_key env.faulty_authorize a.apdu_mem a.apdu_len

-- The four bytes of a key, and the request that carries it.
abbrev pub key_bytes : ℕ → ℕ → ℕ → ℕ → List ℕ
key_bytes k₀ k₁ k₂ k₃ = k₀ ∷ k₁ ∷ k₂ ∷ k₃ ∷ []

abbrev placed : Bool → ℕ → ℕ → List ℕ → List ℕ
placed true l h key = l ∷ h ∷ 0 ∷ 0 ∷ key
placed false l h key = l ∷ h ∷ 0 ∷ key

fresh : Env → Bool → ℕ → ℕ → List ℕ
unfolding fill
fresh env true l h = l ∷ h ∷ fill env.junk 2 6
fresh env false l h = l ∷ h ∷ fill env.junk 2 5

store_key-placed :
    (env : Env) (faulty : Bool) (l h k₀ k₁ k₂ k₃ : ℕ)
    → store_key faulty (fresh env faulty l h) (key_bytes k₀ k₁ k₂ k₃)
      ≡ ret (placed faulty l h (key_bytes k₀ k₁ k₂ k₃))
unfolding store_key fresh
store_key-placed env true l h k₀ k₁ k₂ k₃ = refl
store_key-placed env false l h k₀ k₁ k₂ k₃ = refl

load_key-placed :
    (faulty faulty' : Bool) (l h k₀ k₁ k₂ k₃ : ℕ)
    → load_key faulty' (placed faulty l h (key_bytes k₀ k₁ k₂ k₃)) (size_of faulty)
      ≡ ret (if size_of faulty == size_of faulty' then some (key_bytes k₀ k₁ k₂ k₃) else none)
unfolding load_key
load_key-placed true true l h k₀ k₁ k₂ k₃ = refl
load_key-placed true false l h k₀ k₁ k₂ k₃ = refl
load_key-placed false true l h k₀ k₁ k₂ k₃ = refl
load_key-placed false false l h k₀ k₁ k₂ k₃ = refl

resized :
    (env : Env) (faulty : Bool) (a : Apdu)
    → (resize env (size_of faulty) a).0
      ≡ record a { apdu_mem = fresh env faulty a.apci_l a.apci_h; apdu_len = size_of faulty }
unfolding resize fresh
resized env true a = refl
resized env false a = refl

-- `GetParams` after `BuildMe`, where the two ends may have different settings of `faulty_authorize`: the
-- request is built, and the receiver gets the key if its setting is the sender's, and no key
-- otherwise, never a wrong one.
authorize_request_round_trip :
    (env env' : Env) (a : Apdu) (ack_request priority hop_count_type : ℕ) (asap : Addr)
    (k₀ k₁ k₂ k₃ : ℕ)
    → (b : Apdu) × (build_request env a ack_request priority hop_count_type
          (some asap)
          (some (key_bytes k₀ k₁ k₂ k₃))
        ≡ ret (b, success))
      × (get_request_params env' b
          ≡ ret (
              if size_of env.faulty_authorize == size_of env'.faulty_authorize
              then some (key_bytes k₀ k₁ k₂ k₃)
              else none))
unfolding build_request get_request_params
authorize_request_round_trip env env' a ack_request priority hop_count_type asap k₀ k₁ k₂ k₃ = (
  record a {
    ack_request = ack_request;
    priority = priority;
    hop_count_type = hop_count_type;
    peeraddr = asap;
    apdu_mem = placed env.faulty_authorize a.apci_l a.apci_h (key_bytes k₀ k₁ k₂ k₃);
    apdu_len = size_of env.faulty_authorize;
  },
  rw resized (rw (store_key-placed env env.faulty_authorize a.apci_l a.apci_h k₀ k₁ k₂ k₃)),
  load_key-placed env.faulty_authorize env'.faulty_authorize a.apci_l a.apci_h k₀ k₁ k₂ k₃,
)
