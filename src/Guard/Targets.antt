-- ===== src/Guard/Targets.antt =====
-- core/execution_guard.py: what it means that a target is declared.
use zj_cyber_workbench.Prelude.{
  Bool-cases, string_eq, ◌==◌, nat_eq, ◌&&◌, In, ℕ, ◌<◌, String, ◌≡◌, refl, sym, ap, ◌≢◌, ◌⊎◌, inl,
  inr, Bool, true, false, Option, none, some, List, [], ◌∷◌, arith,
}
use zj_cyber_workbench.Guard.{
  Port, no_port, invalid_port, port_of, SplitUrl, Python, GuardContext, default_port, or_port,
  same_port, same_host, or_next, same_split, same_target, any_target,
}

-- The port that a target names, if it is not 0, or else the usual one of its scheme.
abbrev pub IsPort : SplitUrl → ℕ → Type 0
IsPort url n =
    (url.port ≡ port_of n × (0 < n))
    ⊎ (((url.port ≡ no_port) ⊎ (url.port ≡ port_of 0))
        × (((url.scheme ≡ "https") × (n ≡ 443)) ⊎ ((url.scheme ≢ "https") × (n ≡ 80))))

module _ (py : Python) where
  -- Both are read, as the same scheme, host and port.
  pub record IsSameTarget (actual declared : String) : Type 0 where
    pub url : SplitUrl
    pub other : SplitUrl
    pub read : py.urlsplit actual ≡ some url
    pub read_other : py.urlsplit declared ≡ some other
    pub same_scheme : url.scheme ≡ other.scheme
    pub same_hostname : url.hostname ≡ other.hostname
    pub number : ℕ
    pub port : IsPort url number
    pub other_port : IsPort other number

  -- One of the declared targets is the same.
  abbrev pub IsDeclared : GuardContext → String → Type 0
  IsDeclared context target =
      (declared : String) × In declared context.allowed_targets × IsSameTarget target declared

  or_port-IsPort :
      (url : SplitUrl) (n : ℕ) → or_port url.port (default_port url.scheme) ≡ some n → IsPort url n
  unfolding default_port
  or_port-IsPort url n h = port_lem url.port refl h
    where
      port_lem :
          (p : Port) → p ≡ url.port → or_port p (default_port url.scheme) ≡ some n → IsPort url n
      port_lem invalid_port e h = ground (arith, h)
      port_lem no_port e h = ground (arith, h, e, string_eq.same_iff url.scheme "https")
      port_lem (port_of m) e h = ground (arith, h, e, string_eq.same_iff url.scheme "https")

  same_host_sound : (a b : Option String) → same_host a b ≡ true → a ≡ b
  same_host_sound none none h = refl
  same_host_sound none (some b) h = ground (arith, h)
  same_host_sound (some a) none h = ground (arith, h)
  same_host_sound (some a) (some b) h = ap some ((string_eq.same_iff a b).0 h)

  same_port_sound :
      (a b : Option ℕ) → same_port a b ≡ some true → (n : ℕ) × (a ≡ some n) × (b ≡ some n)
  same_port_sound (some a) (some b) h =
      (a, refl, ap some (sym ((nat_eq.same_iff a b).0 (ground (arith, h)))))
  same_port_sound none b h = ground (arith, h)
  same_port_sound (some a) none h = ground (arith, h)

  same_split_sound :
      (actual declared : String) (a d : Option SplitUrl)
      → py.urlsplit actual ≡ a
      → py.urlsplit declared ≡ d
      → same_split py a d ≡ some true
      → IsSameTarget actual declared
  same_split_sound actual declared none d e k h = ground (arith, h)
  same_split_sound actual declared (some a) none e k h = ground (arith, h)
  same_split_sound actual declared (some a) (some d) e k h =
      elim (Bool-cases (a.scheme == d.scheme && same_host a.hostname d.hostname)) [
        | inr n ↦ ground (arith, n, h)
        | inl s ↦
            let ports =
              same_port_sound (or_port a.port (default_port a.scheme))
                (or_port d.port (default_port d.scheme)) (ground (arith, s, h)) in
            record {
              url = a;
              other = d;
              read = e;
              read_other = k;
              same_scheme = (string_eq.same_iff a.scheme d.scheme).0 (ground (arith, s));
              same_hostname = same_host_sound a.hostname d.hostname (ground (arith, s));
              number = ports.0;
              port = or_port-IsPort a ports.0 ports.1;
              other_port = or_port-IsPort d ports.0 ports.2;
            }
      ]

  or_next-true : (a b : Option Bool) → or_next a b ≡ some true → (a ≡ some true) ⊎ (b ≡ some true)
  or_next-true none b h = ground (arith, h)
  or_next-true (some true) b h = inl refl
  or_next-true (some false) b h = inr h

  pub any_target_sound :
      (actual : String) (targets : List String)
      → any_target py actual targets ≡ some true
      → (declared : String) × In declared targets × IsSameTarget actual declared
  unfolding any_target same_target
  any_target_sound actual [] h = ground (arith, h)
  any_target_sound actual (d ∷ targets) h =
      elim (or_next-true (same_target py actual d) (any_target py actual targets) h) [
        | inl e ↦ (d, inl refl, same_split_sound actual d _ _ refl refl e)
        | inr e ↦ let rest = any_target_sound actual targets e in (rest.0, inr rest.1, rest.2)
      ]
