-- ===== src/Staking/Calls/Keeps.antt =====
-- The calls that neither queue nor settle a stake: what stakes are made of does not grow.
use can_bus.Base.{ℕ, ◌≡◌, ◌∙◌, Option, List, arith}
use can_bus.Frame.Call.{Origin, root, signed, unsigned, ok, ◌>>◌, >>=-eq-ok}
use can_bus.Staking.State.{Config}
use can_bus.Staking.Epoch.{get_epoch_index}
use can_bus.Staking.Claim.{do_native_claim, do_stable_claim, do_withdraw}
use can_bus.Staking.Claim.Amounts.{
  Keeps, do_native_claim-Keeps, do_stable_claim-Keeps, do_withdraw-Keeps,
}
use can_bus.Staking.Calls.{
  S, update_metadata, update_reward, claim_native, claim_stable, withdraw, regist_aiusd,
}

module _ (c : Config) where
  open c use {tokens}

  Keeps-trans : {s t u : S c} → Keeps c s t → Keeps c t u → Keeps c s u
  Keeps-trans k l = record {
    setting = l.setting ∙ k.setting;
    queue = l.queue ∙ k.queue;
    pending = l.pending ∙ k.pending;
    pool = λ p. omega (arith, k.pool p, l.pool p);
  }

  pub update_metadata-Keeps :
      (o : Origin) (p : ℕ) (name : Option (List ℕ)) (description : List ℕ) (s s' : S c)
      → update_metadata c o p name description s ≡ (ok tt, s')
      → Keeps c s s'
  unfolding update_metadata
  update_metadata-Keeps o p name description s s' h = record {
    setting = ground arith;
    queue = ground arith;
    pending = ground arith;
    pool = λ q. ground arith;
  }

  pub update_reward-Keeps :
      (o : Origin) (p epoch reward : ℕ) (s s' : S c)
      → update_reward c o p epoch reward s ≡ (ok tt, s')
      → Keeps c s s'
  unfolding update_reward get_epoch_index
  update_reward-Keeps o p epoch reward s s' h = record {
    setting = ground arith;
    queue = ground arith;
    pending = ground arith;
    pool = λ q. ground arith;
  }

  pub regist_aiusd-Keeps :
      (o : Origin) (asset : ℕ) (s s' : S c) → regist_aiusd c o asset s ≡ (ok tt, s') → Keeps c s s'
  unfolding regist_aiusd
  regist_aiusd-Keeps o asset s s' h = record {
    setting = ground arith;
    queue = ground arith;
    pending = ground arith;
    pool = λ q. ground arith;
  }

  pub claim_native-Keeps :
      (o : Origin) (until_time : ℕ) (s s' : S c)
      → claim_native c o until_time s ≡ (ok tt, s')
      → Keeps c s s'
  unfolding claim_native
  claim_native-Keeps (signed who) until_time s s' h = do_native_claim-Keeps c who until_time s s' h
  claim_native-Keeps root until_time s s' h = absurd (ground arith)
  claim_native-Keeps unsigned until_time s s' h = absurd (ground arith)

  pub claim_stable-Keeps :
      (o : Origin) (p until_time : ℕ) (s s' : S c)
      → claim_stable c o p until_time s ≡ (ok tt, s')
      → Keeps c s s'
  unfolding claim_stable
  claim_stable-Keeps (signed who) p until_time s s' h =
      do_stable_claim-Keeps c who p until_time s s' h
  claim_stable-Keeps root p until_time s s' h = absurd (ground arith)
  claim_stable-Keeps unsigned p until_time s s' h = absurd (ground arith)

  -- The three steps of a withdrawal, once the pool has ended.
  pub withdraw_steps :
      (o : Origin) (p : ℕ) (s s' : S c)
      → withdraw c o p s ≡ (ok tt, s')
      → (who : ℕ) × ((do_native_claim c who s.block_number
              >> (do_stable_claim c who p s.block_number >> do_withdraw c who p))
            s
          ≡ (ok tt, s'))
  unfolding withdraw
  withdraw_steps (signed who) p s s' h = (who, ground arith)
  withdraw_steps root p s s' h = absurd (ground arith)
  withdraw_steps unsigned p s s' h = absurd (ground arith)

  pub withdraw-Keeps :
      (o : Origin) (p : ℕ) (s s' : S c) → withdraw c o p s ≡ (ok tt, s') → Keeps c s s'
  withdraw-Keeps o p s s' h =
      let (who, steps) = withdraw_steps o p s s' h in
      let now = s.block_number in
      let (_, t, native, rest) =
        >>=-eq-ok (do_native_claim c who now)
          (λ _. do_stable_claim c who p now >> do_withdraw c who p) s steps in
      let (_, u, stable, last) =
        >>=-eq-ok (do_stable_claim c who p now) (λ _. do_withdraw c who p) t rest in
      Keeps-trans (do_native_claim-Keeps c who now s t native) (
        Keeps-trans (do_stable_claim-Keeps c who p now t u stable)
          (do_withdraw-Keeps c who p u s' last))
