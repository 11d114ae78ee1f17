-- ===== src/Frame/Transmission.antt =====
-- An APDU that is sent in a frame arrives as the same APDU.
use edifice.Base.{
  ℕ, suc, ◌+◌, ◌-◌, ◌%◌, ◌≡◌, refl, sym, ap, ◌∙◌, arith, Bool, true, false, All, List, [], ◌∷◌,
  ◌++◌, length, some, ret, take-append, length-append,
}
use mathlib.Core.Path.{subst}
use edifice.Base.Bits.{IsByte}
use edifice.Apdu.Types.{Env, Apdu, ApduType, construct, apdu_vec}
use edifice.Device.Manager.{IDevice, DeviceManager}
use edifice.Pentagon.Checksum.{xor_all}
use edifice.Frame.Types.{Frame}
use edifice.Frame.Build.{standard_ctrl, extended_ctrl, build_frame_from_apdu}
use edifice.Frame.Parse.{build_frame_from_buff}
use edifice.Frame.Layout.{
  IsSendable, standard_rest, extended_rest, standard_layout, extended_layout,
}
use edifice.Frame.RoundTrip.{standard_found, extended_found, standard_built, extended_built}
use edifice.Frame.Extract.{spawn_first, received, build_apdu_from_frame}
use edifice.Frame.Dispatch.{carries, spawn_first-first_carrying}
use edifice.Frame.Unique.{first_carrying_unique}
use native.Mathlib.Decide.{dec_lt}

-- What the receiver's object has in common with the sender's.
pub record IsReceived (a b : Apdu) : Type 0 where
  pub same_type : b.type ≡ a.type
  pub same_mem : b.apdu_mem ≡ a.apdu_mem
  pub same_len : b.apdu_len ≡ a.apdu_len
  pub same_host : b.hostaddr ≡ a.hostaddr
  pub same_peer : b.peeraddr ≡ a.peeraddr
  pub marked : b.recved_apdu ≡ true

-- The object of class `t` around the bytes `mem`.
abbrev arrived : Env → ApduType → List ℕ → ℕ → Apdu
arrived env t mem len = record (construct env t) { apdu_mem = mem; apdu_len = len % 256 }

spawn_first-arrived :
    (env : Env) (t : ApduType) (mem more : List ℕ) (len l h : ℕ) (rest : List ℕ)
    → mem ≡ l ∷ h ∷ rest
    → length mem ≡ len
    → IsByte l
    → IsByte h
    → carries env t l h ≡ true
    → spawn_first env apdu_vec (mem ++ more) len ≡ ret (some (arrived env t mem len))
spawn_first-arrived env t mem more len l h rest em el hl hh c =
    let n : ℕ = length rest in
    let same : len ≡ suc (suc n) = sym el ∙ ap length em in
    rw (em, same)
      (rw
        (spawn_first-first_carrying env apdu_vec l h (rest ++ more) n
          (omega (arith, length-append rest more)))
        (rw (first_carrying_unique env t l h hl hh c) (rw (take-append n rest more refl))))

module _ (env : Env) (a : Apdu) (l h : ℕ) (rest : List ℕ) (s : IsSendable a)
    (em : a.apdu_mem ≡ l ∷ h ∷ rest) (c : carries env a.type l h ≡ true) where
  -- The two control bytes are bytes.
  control_bytes : IsByte l × IsByte h
  control_bytes = let all = subst (All IsByte) em s.bytes in (all.0, all.1.0)

  found_in :
      (more : List ℕ)
      → spawn_first env apdu_vec (a.apdu_mem ++ more) a.apdu_len
        ≡ ret (some (arrived env a.type a.apdu_mem a.apdu_len))
  found_in more =
      spawn_first-arrived env a.type a.apdu_mem more a.apdu_len l h rest em s.sized control_bytes.0
        control_bytes.1 c

  len_kept : a.apdu_len % 256 ≡ a.apdu_len
  len_kept = omega (arith, s.at_most)

  arrives : Apdu
  unfolding received
  arrives = received (some a.hostaddr) (some a.peeraddr) (arrived env a.type a.apdu_mem a.apdu_len)

  standard_arrives : build_apdu_from_frame env (standard_layout a) ≡ ret (some arrives)
  unfolding build_apdu_from_frame standard_layout standard_rest arrives
  standard_arrives =
      let e : (a.apdu_len + 7 + 256 - 7) % 256 ≡ a.apdu_len = omega (arith, s.at_most) in
      rw e (rw (found_in (xor_all (standard_ctrl a) (standard_rest a) ∷ [])))

  extended_arrives : build_apdu_from_frame env (extended_layout a) ≡ ret (some arrives)
  unfolding build_apdu_from_frame extended_layout extended_rest arrives
  extended_arrives =
      let e : (a.apdu_len + 8 + 256 - 8) % 256 ≡ a.apdu_len = omega (arith, s.at_most) in
      rw e (rw (found_in (xor_all (extended_ctrl a) (extended_rest a) ∷ [])))

  arrives-IsReceived : IsReceived a arrives
  unfolding arrives construct
  arrives-IsReceived = record {
    same_type = refl;
    same_mem = refl;
    same_len = len_kept;
    same_host = refl;
    same_peer = refl;
    marked = refl;
  }

module _ {D : Type 0} (dev : IDevice D) where
  -- End to end. An APDU that can be sent (1 to 247 bytes, as many as its length member says, all of
  -- them, its addresses and its priority below 256), and whose first two bytes are control bytes of its
  -- own class, is packed into a frame, the frame is recognised from its bytes (without the address test), and
  -- the APDU taken out of it has the class, the bytes, the length and both addresses of the one
  -- that was sent, and is marked as received. This holds with either setting of `faulty_apci`.
  pub transmitted :
      (env : Env) (a : Apdu) (l h : ℕ) (rest : List ℕ) (recved : Bool) (m : DeviceManager D)
      → IsSendable a
      → a.apdu_mem ≡ l ∷ h ∷ rest
      → carries env a.type l h ≡ true
      → (f : Frame) × (b : Apdu) × (build_frame_from_apdu a ≡ ret f)
        × (build_frame_from_buff dev env (some f.frame_mem) f.frame_len recved false m
            ≡ ret (some f, m))
        × (build_apdu_from_frame env f ≡ ret (some b))
        × IsReceived a b
  transmitted env a l h rest recved m s em c = elim (dec_lt a.apdu_len 16) [
    | yes p ↦ (
      standard_layout a,
      arrives env a l h rest s em c,
      standard_built a s.sized s.at_least p,
      standard_found dev env a recved m s.sized s.at_least p s.priority,
      standard_arrives env a l h rest s em c,
      arrives-IsReceived env a l h rest s em c,
    )
    | no p ↦ (
      extended_layout a,
      arrives env a l h rest s em c,
      extended_built a s.sized (omega arith) s.at_most,
      extended_found dev env a recved m s.sized (omega arith) s.priority,
      extended_arrives env a l h rest s em c,
      arrives-IsReceived env a l h rest s em c,
    )
  ]
