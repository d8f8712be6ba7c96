-- ===== src/Enforcement/Legacy/Loops.antt =====
-- The loops of the `iptables-legacy` fallback in services/enforcement/src/iptables.rs, which delete a
-- rule as often as it is there.
use native.Mathlib.Omega.{arith}
use lentropy.Common.{ℕ, zero, suc, ◌≤◌, ◌<◌, ◌≡◌, ◌≢◌, refl, List, ◌∷◌, Text, codes}
use lentropy.Outcome.{ok, err, panic, timeout}
use lentropy.Enforcement.Legacy.{
  Answer, success, failure, not_started, History, LegacyTool, Ran, run_ipt, result_of, delete_rest,
  delete_loop, and_run, chain_block, chain_quarantine, drop_args, dns_args, portal_args, ipt_mac,
  ipt_remove_block, ipt_remove_quarantine, ipt_allow, delete_all,
}

-- A deletion by the rule's specification.
abbrev pub deletion : Text → List Text → List Text
deletion chain rule = codes "-D" ∷ chain ∷ rule

module _ (tool : LegacyTool) where
  -- How many rules of a chain are as specified, after the runs so far: what `-D` is documented to do.
  pub record Chains (rules : History → Text → List Text → ℕ) : Type 0 where
    pub takes_one :
        (h : History) (chain : Text) (rule : List Text)
        → tool.run h (deletion chain rule) ≡ success
        → rules (deletion chain rule ∷ h) chain rule < rules h chain rule
    pub fails_on_none :
        (h : History) (chain : Text) (rule : List Text)
        → tool.run h (deletion chain rule) ≢ success
        → rules (deletion chain rule ∷ h) chain rule ≡ 0
    pub adds_none :
        (h : History) (chain other : Text) (rule another : List Text)
        → rules (deletion chain rule ∷ h) other another ≤ rules h other another
    -- A chain does not have more rules than the loops have fuel.
    pub short :
        (h : History) (chain : Text) (rule : List Text) → rules h chain rule < tool.rules_limit

  module _ (rules : History → Text → List Text → ℕ) (chains : Chains rules) where
    -- From the first history to the second no rule is added.
    abbrev Fewer : History → History → Type 0
    Fewer h h' = (chain : Text) (rule : List Text) → rules h' chain rule ≤ rules h chain rule

    abbrev Cleared : Text → List Text → History → Ran → Type 0
    Cleared chain rule h (r, h') = (r ≡ ok tt) × (rules h' chain rule ≡ 0) × Fewer h h'

    again :
        (chain : Text) (rule : List Text) (h : History) (r : Ran)
        → Cleared chain rule (deletion chain rule ∷ h) r
        → Cleared chain rule h r
    again chain rule h r (done, none, fewer) =
        (done, none, λ c s. omega (arith, fewer c s, chains.adds_none h chain c rule s))

    module _ (chain : Text) (rule : List Text) where
      round :
          (rest : History → Ran) (h : History) (a : Answer)
          → tool.run h (deletion chain rule) ≡ a
          → (tool.run h (deletion chain rule) ≡ success
              → Cleared chain rule (deletion chain rule ∷ h) (rest (deletion chain rule ∷ h)))
          → Cleared chain rule h (
              delete_rest tool rest
                (result_of tool (deletion chain rule) a, deletion chain rule ∷ h))
      round rest h success e next = again chain rule h (rest (deletion chain rule ∷ h)) (next e)
      round rest h (failure stderr) e next = (
        refl,
        chains.fails_on_none h chain rule λ s. absurd cc,
        λ c s. chains.adds_none h chain c rule s,
      )
      round rest h not_started e next = (
        refl,
        chains.fails_on_none h chain rule λ s. absurd cc,
        λ c s. chains.adds_none h chain c rule s,
      )

      delete_loop-Cleared :
          (fuel : ℕ) (h : History)
          → rules h chain rule < fuel
          → Cleared chain rule h (delete_loop tool fuel (deletion chain rule) h)
      unfolding delete_loop run_ipt
      delete_loop-Cleared zero h few = absurd (omega arith)
      delete_loop-Cleared (suc fuel) h few =
          round (delete_loop tool fuel (deletion chain rule)) h (tool.run h (deletion chain rule))
            refl
            λ e.
              delete_loop-Cleared fuel (deletion chain rule ∷ h)
                (omega (arith, chains.takes_one h chain rule e))

      delete_all-Cleared : (h : History) → Cleared chain rule h (delete_all tool chain rule h)
      delete_all-Cleared h = delete_loop-Cleared tool.rules_limit h (chains.short h chain rule)

    -- A run that ends well, and what is so behind it.
    abbrev Ending : (History → Type 0) → History → Ran → Type 0
    Ending P h (r, h') = (r ≡ ok tt) × P h' × Fewer h h'

    and_run-Ending :
        (P Q : History → Type 0) (h : History) (r : Ran) (next : History → Ran)
        → Ending P h r
        → ((h' : History) → P h' → Ending Q h' (next h'))
        → Ending Q h (and_run r next)
    and_run-Ending P Q h (ok _, h') next (done, p, fewer) k =
        let (done', q, fewer') = k h' p in (done', q, λ c s. omega (arith, fewer c s, fewer' c s))
    and_run-Ending P Q h (err e, h') next (done, p, fewer) k = absurd cc
    and_run-Ending P Q h (panic, h') next (done, p, fewer) k = absurd cc
    and_run-Ending P Q h (timeout, h') next (done, p, fewer) k = absurd cc

    abbrev Gone : Text → List Text → History → Type 0
    Gone chain rule h = rules h chain rule ≡ 0

    -- One more rule is cleared, and what was cleared stays so.
    delete_all-Ending :
        (P : History → Type 0) (chain : Text) (rule : List Text)
        → ((h h' : History) → Fewer h h' → P h → P h')
        → (h : History) → P h
        → Ending (λ h'. P h' × Gone chain rule h') h (delete_all tool chain rule h)
    delete_all-Ending P chain rule keeps h p =
        let (done, none, fewer) = delete_all-Cleared chain rule h in
        (done, (keeps h (delete_all tool chain rule h).1 fewer p, none), fewer)

    still :
        (chain : Text) (rule : List Text) (h h' : History)
        → Fewer h h'
        → Gone chain rule h
        → Gone chain rule h'
    still chain rule h h' fewer none = omega (arith, fewer chain rule, none)

    abbrev pub NoRules : Text → History → Type 0
    NoRules mac h =
        ((Gone chain_block (drop_args mac) h × Gone chain_quarantine (dns_args mac) h)
          × Gone chain_quarantine (portal_args mac) h)
        × Gone chain_quarantine (drop_args mac) h

    abbrev BlockGone : Text → History → Type 0
    BlockGone mac h = Gone chain_block (drop_args mac) h

    abbrev DnsGone : Text → History → Type 0
    DnsGone mac h = BlockGone mac h × Gone chain_quarantine (dns_args mac) h

    abbrev PortalGone : Text → History → Type 0
    PortalGone mac h = DnsGone mac h × Gone chain_quarantine (portal_args mac) h

    module _ (m : Text) (h h' : History) (fewer : Fewer h h') where
      BlockGone-still : BlockGone m h → BlockGone m h'
      BlockGone-still = still chain_block (drop_args m) h h' fewer

      DnsGone-still : DnsGone m h → DnsGone m h'
      DnsGone-still (b, d) = (BlockGone-still b, still chain_quarantine (dns_args m) h h' fewer d)

      PortalGone-still : PortalGone m h → PortalGone m h'
      PortalGone-still (d, p) =
          (DnsGone-still d, still chain_quarantine (portal_args m) h h' fewer p)

    ipt_remove_quarantine-Ending :
        (m : Text) (h : History)
        → BlockGone m h
        → Ending (NoRules m) h (ipt_remove_quarantine tool m h)
    unfolding ipt_remove_quarantine
    ipt_remove_quarantine-Ending m h b =
        and_run-Ending (DnsGone m) (NoRules m) h _ _
          (delete_all-Ending (BlockGone m) chain_quarantine (dns_args m) (BlockGone-still m) h b)
          λ h₁ d.
            and_run-Ending (PortalGone m) (NoRules m) h₁ _ _
              (delete_all-Ending (DnsGone m) chain_quarantine (portal_args m) (DnsGone-still m) h₁
                d)
              λ h₂ p.
                delete_all-Ending (PortalGone m) chain_quarantine (drop_args m) (PortalGone-still m)
                  h₂ p

    -- If a deletion that succeeds leaves fewer rules of its kind, one that fails leaves none, none adds
    -- a rule, and no chain has as many rules as the loops have fuel, then allowing a device ends,
    -- without an error, and no rule for its MAC address is left in the two chains: neither the drop
    -- of NAC_BLOCK nor the two returns and the drop of NAC_QUARANTINE.
    pub ipt_allow-clears :
        (mac : Text) (h : History)
        → ((ipt_allow tool mac h).0 ≡ ok tt) × NoRules (ipt_mac tool mac) (ipt_allow tool mac h).1
    unfolding ipt_allow ipt_remove_block
    ipt_allow-clears mac h =
        let m = ipt_mac tool mac in
        let (done, none, fewer) =
          and_run-Ending (BlockGone m) (NoRules m) h _ (ipt_remove_quarantine tool m)
            (delete_all-Cleared chain_block (drop_args m) h) (ipt_remove_quarantine-Ending m) in
        (done, none)
