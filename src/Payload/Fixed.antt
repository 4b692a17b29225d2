-- ===== src/Payload/Fixed.antt =====
-- A payload that `_safe_payload` has been over (src/z_apply_core/integrations/service.py).
use z_apply_core.Prelude.{ℕ, zero, suc, ◌≤◌, ◌≡◌, refl, ap, String, some, arith, take_text-short}
use z_apply_core.Payload.Json.{
  Json, null, opaque, boolean, number, decimal, text, list, dict, instance, Items, no_items, item,
  Entries, no_entries, entry,
}
use z_apply_core.Payload.Sanitize.{
  max_text, max_items, safe_value, safe_items, safe_entries, safe_payload,
}
use z_apply_core.Payload.Safe.{
  count_items, count_entries, IsSafe, AllSafe, AllPublic, PlainEntries, safe_payload-AllPublic,
}

-- What may go out at its depth is not changed.
mutual
  unfolding safe_value IsSafe count_items count_entries

  safe_value-fixes :
      (lower : String → String) (depth : ℕ) (v : Json)
      → IsSafe lower depth v
      → safe_value lower depth v ≡ some v
  safe_value-fixes lower depth null h = absurd h
  safe_value-fixes lower depth opaque h = absurd h
  safe_value-fixes lower depth (boolean b) h = ground (arith, h)
  safe_value-fixes lower depth (number n) h = ground (arith, h)
  safe_value-fixes lower depth (decimal s) h = ground (arith, h)
  safe_value-fixes lower depth (text s) h =
      rw (take_text-short max_text s h.1) (ground (arith, h.0))
  safe_value-fixes lower depth (list vs) h =
      rw (safe_items-fixes lower max_items (suc depth) vs h.1 h.2) (ground (arith, h.0))
  safe_value-fixes lower depth (dict es) h =
      rw (safe_entries-fixes lower max_items (suc depth) es h.1 h.2) (ground (arith, h.0))
  safe_value-fixes lower depth (instance es) h = absurd h

  safe_items-fixes :
      (lower : String → String) (n depth : ℕ) (vs : Items)
      → count_items vs ≤ n
      → AllSafe lower depth vs
      → safe_items lower n depth vs ≡ vs
  safe_items-fixes lower zero depth no_items h k = refl
  safe_items-fixes lower zero depth (item v vs) h k = absurd (omega (arith, h))
  safe_items-fixes lower (suc n) depth no_items h k = refl
  safe_items-fixes lower (suc n) depth (item v vs) h k =
      rw (safe_value-fixes lower depth v k.0)
        (ap (item v) (safe_items-fixes lower n depth vs (omega (arith, h)) k.1))

  safe_entries-fixes :
      (lower : String → String) (n depth : ℕ) (es : Entries)
      → count_entries es ≤ n
      → AllPublic lower depth es
      → safe_entries lower n depth es ≡ es
  safe_entries-fixes lower zero depth no_entries h k = refl
  safe_entries-fixes lower zero depth (entry j v es) h k = absurd (omega (arith, h))
  safe_entries-fixes lower (suc n) depth no_entries h k = refl
  safe_entries-fixes lower (suc n) depth (entry j v es) h k =
      rw (k.0, safe_value-fixes lower depth v k.1)
        (ap (entry j v) (safe_entries-fixes lower n depth es (omega (arith, h)) k.2))

safe_payload-fixes :
    (lower : String → String) (es : Entries) → AllPublic lower 0 es → safe_payload lower es ≡ es
unfolding safe_payload IsSafe
safe_payload-fixes lower no_entries k = refl
safe_payload-fixes lower (entry j v es) k =
    rw (k.0, safe_value-fixes lower 0 v k.1) (ap (entry j v) (safe_payload-fixes lower es k.2))

-- If no dataclass stands in a payload, what goes out has no private key, no None and no object at
-- any depth, texts, lists and dicts below the top within their limits and no more than four levels;
-- and to sanitize it once more changes nothing.
pub safe_payload-AllPublic-fixes :
    (lower : String → String) (es : Entries)
    → PlainEntries es
    → AllPublic lower 0 (safe_payload lower es)
      × (safe_payload lower (safe_payload lower es) ≡ safe_payload lower es)
safe_payload-AllPublic-fixes lower es p =
    let safe = safe_payload-AllPublic lower es p in
    (safe, safe_payload-fixes lower (safe_payload lower es) safe)
