-- ===== src/Proxy/Signed.antt =====
-- What `_verify_hotkey_with_msg` of validator/rancher_proxy.py accepts.
use mathlib.Core.Path.{subst}
use mathlib.Core.Option.{some-injective}
use kubetee_subnet.Base.{
  ◌≡◌, refl, sym, inl, inr, Bool, true, false, not, ◌&&◌, ◌||◌, Option, none, some, List, [], ◌∷◌,
  String, string_eq, ◌==◌, Bool-cases, Option-cases,
}
use kubetee_subnet.Base.Members.{Some}
use kubetee_subnet.Text.{strip}
use kubetee_subnet.Epoch.{Miner}
use kubetee_subnet.Proxy.{
  Server, find_miner, verifies, signed_among, is_timely, verify_hotkey_with_msg,
}

and-true : (a b : Bool) → (a && b) ≡ true → (a ≡ true) × (b ≡ true)
and-true true b h = (refl, h)
and-true false b h = cc h

-- The miner that is found has the hotkey.
find_miner-Some :
    (P : Miner → Type 0) (hotkey : String) (miners : List Miner) (m : Miner)
    → find_miner hotkey miners ≡ some m
    → P m
    → Some (λ x. (x.hotkey ≡ hotkey) × P x) miners
find_miner-Some P hotkey [] m h p = cc h
find_miner-Some P hotkey (x ∷ xs) m h p = elim (Bool-cases (x.hotkey == hotkey)) [
  | inl e ↦
      inl
        ((string_eq.beq_iff x.hotkey hotkey).0 e, subst P (sym (some-injective x m (rw e at h))) p)
  | inr e ↦ inr (find_miner-Some P hotkey xs m (rw e at h) p)
]

module _ {P : Type 0} (srv : Server P) where
  -- A validator of the metagraph has signed the message with its hotkey, no more than 60 s from now.
  pub record IsSigned (hotkey signature ts message : String) : Type 0 where
    pub miners : List Miner
    pub sig : String
    pub timely : is_timely srv (srv.parse_int ts) ≡ true
    pub known : srv.metagraph ≡ some miners
    pub validator : Some (λ m. (m.hotkey ≡ hotkey) × (m.is_validator ≡ true)) miners
    pub decoded : srv.from_hex (strip signature) ≡ some sig
    pub verified : srv.verify_sr25519 message sig hotkey ≡ true

  verifies-IsSigned :
      (hotkey signature ts message : String) (miners : List Miner) (m : Miner) (o : Option String)
      → is_timely srv (srv.parse_int ts) ≡ true
      → srv.metagraph ≡ some miners
      → find_miner hotkey miners ≡ some m
      → srv.from_hex (strip signature) ≡ o
      → (m.is_validator && verifies srv hotkey message o) ≡ true
      → IsSigned hotkey signature ts message
  verifies-IsSigned hotkey signature ts message miners m none t e found x h =
      cc (and-true m.is_validator false h).1
  verifies-IsSigned hotkey signature ts message miners m (some sig) t e found x h =
      let both = and-true m.is_validator _ h in
      record {
        miners = miners;
        sig = sig;
        timely = t;
        known = e;
        validator = find_miner-Some (λ y. y.is_validator ≡ true) hotkey miners m found both.0;
        decoded = x;
        verified = both.1;
      }

  signed_among-IsSigned :
      (hotkey signature ts message : String) (o : Option (List Miner))
      → is_timely srv (srv.parse_int ts) ≡ true
      → srv.metagraph ≡ o
      → signed_among srv hotkey signature message o ≡ true
      → IsSigned hotkey signature ts message
  signed_among-IsSigned hotkey signature ts message none t e h = cc h
  signed_among-IsSigned hotkey signature ts message (some miners) t e h =
      elim (Option-cases (find_miner hotkey miners)) [
        | inl n ↦ cc (rw n at h)
        | inr (m, found) ↦
            verifies-IsSigned hotkey signature ts message miners m (srv.from_hex (strip signature))
              t e found refl (rw found at h)
      ]

  pub verify-IsSigned :
      (hotkey signature ts message : String)
      → verify_hotkey_with_msg srv hotkey signature ts message ≡ true
      → IsSigned hotkey signature ts message
  unfolding verify_hotkey_with_msg
  verify-IsSigned hotkey signature ts message h =
      let timely = is_timely srv (srv.parse_int ts) in
      let signed = signed_among srv hotkey signature message srv.metagraph in
      let given = not (hotkey == "" || signature == "" || ts == "") in
      let both = and-true (given && timely) signed h in
      signed_among-IsSigned hotkey signature ts message srv.metagraph
        (and-true given timely both.0).1 refl both.1
