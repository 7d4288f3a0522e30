-- ===== src/Factory/Probes.antt =====
-- How often a factory is asked.
use talemu.Prelude.{
  Text, codes, text_eq_refl, contains, Bool, false, ◌∷◌, ◌++◌, none, some, ◌≡◌, ◌⊎◌, inl, inr,
  arith, Option-cases, Bool-cases,
}
use talemu.Image.{is_empty}
use talemu.Factory.{EnterpriseChecker, Web, lookup, trim_slash, is_enterprise}

-- Asking for the same base URL twice. If the first answer is a Boolean, the second is the same and
-- sends no request. If it is an error, nothing was cached, and the request that it sent is sent
-- again: the second call asks the web afresh.
pub is_enterprise-is_enterprise :
    (web : Web) (base_url : Text) (checker : EnterpriseChecker)
    → let (r, checker') = is_enterprise web base_url checker in
      ((b : Bool) × (r ≡ some b) × (is_enterprise web base_url checker' ≡ (some b, checker')))
      ⊎ ((r ≡ none)
          × (checker'.cache ≡ checker.cache)
          × (checker'.requests ≡ (trim_slash base_url ++ codes "/versions") ∷ checker.requests)
          × ((is_enterprise web base_url checker').1.requests
              ≡ (trim_slash base_url ++ codes "/versions") ∷ checker'.requests))
unfolding is_enterprise lookup
is_enterprise-is_enterprise web base_url checker = elim (Bool-cases (is_empty base_url)) [
  | inl e ↦ inl (false, ground arith, ground arith)
  | inr e ↦ elim (Option-cases (lookup base_url checker.cache)) [
    | inr (b, h) ↦ inl (b, ground arith, ground arith)
    | inl h ↦
        elim (Option-cases (web checker.requests (trim_slash base_url ++ codes "/versions"))) [
          | inl n ↦ inr (
            ground arith,
            ground arith,
            ground arith,
            elim (Option-cases (
                web ((trim_slash base_url ++ codes "/versions") ∷ checker.requests)
                  (trim_slash base_url ++ codes "/versions"))) [
                    | inl m ↦ ground arith
                    | inr (a, m) ↦ ground arith
                  ],
          )
          | inr (a, n) ↦
              inl (
                contains a (codes "Enterprise"),
                ground arith,
                ground (arith, text_eq_refl base_url),
              )
        ]
  ]
]
