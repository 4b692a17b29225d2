-- ===== src/Broker/Counts.antt =====
-- How often a request stands among the pending ones, the claims and the reports, and what the
-- operations of a dictionary do to these counts.
use z_apply_core.Prelude.{
  ℕ, ◌+◌, ◌≤◌, ◌≡◌, inl, inr, refl, ap, sym, ◌∙◌, String, Bool, true, false, ◌||◌, some, List, [],
  ◌∷◌, ◌++◌, arith, str_eq, eq_iff, All, Bool-cases, from_some,
}
use z_apply_core.Dict
use z_apply_core.Dict.{Dict}
use z_apply_core.Broker.Request.{BrokerRequest}
use z_apply_core.Broker.Methods.{Claim, Notice, resolution}

abbrev pub bit : Bool → ℕ
bit true = 1
bit false = 0

abbrev pub request_of : Claim → BrokerRequest
request_of c = c.request

-- The broker files a request under its own identifier.
abbrev pub IsFiled : Dict BrokerRequest → Type 0
IsFiled = All (λ e. e.1.request_id ≡ e.0)

module _ (id : String) where
  unfoldable pub count_pending : Dict BrokerRequest → ℕ
  count_pending [] = 0
  count_pending ((k, _) ∷ d) = bit (str_eq k id) + count_pending d

  unfoldable pub count_claims : List Claim → ℕ
  count_claims [] = 0
  count_claims (c ∷ cs) = bit (str_eq (request_of c).request_id id) + count_claims cs

  abbrev pub is_resolution : Notice → ℕ
  is_resolution (resolution r) = bit (str_eq r.request_id id)
  is_resolution _ = 0

  -- The reports of the request to `on_resolved`.
  unfoldable pub count_resolutions : List Notice → ℕ
  count_resolutions [] = 0
  count_resolutions (n ∷ ns) = is_resolution n + count_resolutions ns

  pub count_claims-append :
      (cs ds : List Claim) → count_claims (cs ++ ds) ≡ count_claims cs + count_claims ds
  unfolding count_claims
  count_claims-append [] ds = omega arith
  count_claims-append (c ∷ cs) ds = omega (arith, count_claims-append cs ds)

  pub count_pending-put :
      (k : String) (r : BrokerRequest) (d : Dict BrokerRequest)
      → count_pending (Dict.put k r d) ≤ count_pending d + bit (str_eq k id)
  unfolding count_pending Dict.put
  count_pending-put k r [] = omega arith
  count_pending-put k r ((j, q) ∷ d) = elim (Bool-cases (str_eq j k)) [
    | inl same ↦ rw same (omega arith)
    | inr other ↦ rw other (omega (arith, count_pending-put k r d))
  ]

  pub count_pending-remove-le :
      (k : String) (d : Dict BrokerRequest) → count_pending (Dict.remove k d) ≤ count_pending d
  unfolding count_pending Dict.remove
  count_pending-remove-le k [] = omega arith
  count_pending-remove-le k ((j, q) ∷ d) = elim (Bool-cases (str_eq j k)) [
    | inl same ↦ rw same (omega (arith, count_pending-remove-le k d))
    | inr other ↦ rw other (omega (arith, count_pending-remove-le k d))
  ]

  pub count_pending-remove :
      (k : String) (r : BrokerRequest) (d : Dict BrokerRequest)
      → Dict.get k d ≡ some r
      → count_pending (Dict.remove k d) + bit (str_eq k id) ≤ count_pending d
  unfolding count_pending Dict.remove Dict.get
  count_pending-remove k r [] e = cc
  count_pending-remove k r ((j, q) ∷ d) e = elim (Bool-cases (str_eq j k)) [
    | inl same ↦ rw (same, (eq_iff j k).0 same) (omega (arith, count_pending-remove-le k d))
    | inr other ↦ rw other (omega (arith, count_pending-remove k r d (rw (other, Dict.get) at e)))
  ]

module _ {V : Type 0} where
  pub has-put :
      (k j : String) (v : V) (d : Dict V)
      → Dict.has j (Dict.put k v d) ≡ (str_eq k j || Dict.has j d)
  unfolding Dict.has Dict.put
  has-put k j v [] = refl
  has-put k j v ((i, w) ∷ d) = ground (arith, eq_iff k j, eq_iff i k, eq_iff i j, has-put k j v d)

pub IsFiled-put :
    (r : BrokerRequest) (d : Dict BrokerRequest) → IsFiled d → IsFiled (Dict.put r.request_id r d)
unfolding Dict.put
IsFiled-put r [] f = (refl, tt)
IsFiled-put r ((j, q) ∷ d) f = elim (Bool-cases (str_eq j r.request_id)) [
  | inl same ↦ rw (same, All) (sym ((eq_iff j r.request_id).0 same), f.1)
  | inr other ↦ rw (other, All) (f.0, IsFiled-put r d f.1)
]

pub IsFiled-remove : (k : String) (d : Dict BrokerRequest) → IsFiled d → IsFiled (Dict.remove k d)
unfolding Dict.remove
IsFiled-remove k [] f = tt
IsFiled-remove k ((j, q) ∷ d) f = elim (Bool-cases (str_eq j k)) [
  | inl same ↦ rw (same) (IsFiled-remove k d f.1)
  | inr other ↦ rw (other, All) (f.0, IsFiled-remove k d f.1)
]

pub IsFiled-get :
    (k : String) (r : BrokerRequest) (d : Dict BrokerRequest)
    → IsFiled d
    → Dict.get k d ≡ some r
    → r.request_id ≡ k
unfolding Dict.get
IsFiled-get k r [] f e = cc
IsFiled-get k r ((j, q) ∷ d) f e = elim (Bool-cases (str_eq j k)) [
  | inl same ↦
      let i = from_some _ _ (rw (same, Dict.get) at e) in
      ap (λ (x : BrokerRequest). x.request_id) (sym i) ∙ f.0 ∙ (eq_iff j k).0 same
  | inr other ↦ IsFiled-get k r d f.1 (rw (other, Dict.get) at e)
]
