-- ===== src/Web/HostsPage/Keys.antt =====
-- The order that the hosts page promises for each sort key, and that the comparison of
-- `sortHostsForHostsPage` gives it.
use hosthalla.Base.{
  ℕ, zero, suc, ◌-◌, ℤ, pos, negsuc, ◌≡◌, refl, Bool, true, false, not, ◌&&◌, ◌||◌, List, [], ◌∷◌,
  if◌then◌else◌, ltb, ◌==◌, text_eq, arith, Bool-cases, inl, inr, text_before,
}
use hosthalla.Text.{Text, Unicode, codes, to_lower}
use hosthalla.Model.{Host}
use hosthalla.Web.Badges.{Float64, Badges}
use hosthalla.Web.HostsPage.{
  HostsPageQuery, PageData, host_status, host_status_rank, difference, compare_text, compare_time,
  compare_float, usage, rank, is_zero, is_positive, is_negative, compare_keys, compare_names,
  compare_hosts, host_before,
}

-- The statuses in their order; any other comes after them. Places count from 1.
abbrev pub statuses : List Text
statuses = codes "reporting" ∷ codes "waiting" ∷ codes "stale" ∷ codes "warning" ∷ []

abbrev pub place_in : List Text → Text → ℕ
place_in [] word = 1
place_in (w ∷ words) word = let rest = place_in words word in if word == w then 1 else suc rest

-- The rule that is listed under a name, or else the last.
abbrev pub rule_for :
    List (Text × (Host → Host → Bool)) → Text → (Host → Host → Bool) → Host → Host → Bool
rule_for [] key otherwise = otherwise
rule_for ((name, rule) ∷ rules) key otherwise =
    if key == name then rule else rule_for rules key otherwise

module _ ⦃u : Unicode⦄ ⦃f : Float64⦄ (query : HostsPageQuery) (page : PageData) (now : ℕ) where
  abbrev pub name_less : Host → Host → Bool
  name_less l r = text_before (to_lower l.name) (to_lower r.name)

  abbrev pub status_place : Host → ℕ
  status_place h = place_in statuses (host_status h (page.methods h.id) (page.badges h.id) now)

  abbrev pub usage_less : (Badges → ℕ) → Host → Host → Bool
  usage_less field l r = f.less (usage field (page.badges l.id)) (usage field (page.badges r.id))

  abbrev pub key_rules : List (Text × (Host → Host → Bool))
  key_rules =
      (codes "name", name_less)
      ∷ (codes "status", λ l r. ltb (status_place l) (status_place r))
      ∷ (codes "address", λ l r. text_before l.ip r.ip)
      ∷ (codes "cpu", usage_less (λ b. b.cpu_usage_percentage))
      ∷ (codes "memory", usage_less (λ b. b.memory_usage_percentage))
      ∷ (codes "disk", usage_less (λ b. b.disk_usage_percentage))
      ∷ (codes "updated", λ l r. ltb l.updated_at r.updated_at)
      ∷ []

  -- By the key; the default is the time of creation.
  abbrev pub key_less : Host → Host → Bool
  key_less = rule_for key_rules query.sort_key (λ l r. ltb l.created_at r.created_at)

  -- By the key, and by the name where the key makes no difference.
  abbrev pub less : Host → Host → Bool
  less l r = key_less l r || (not (key_less r l) && name_less l r)

  abbrev pub belongs_before : Host → Host → Bool
  belongs_before l r = if query.sort_direction == codes "desc" then less r l else less l r

pub text_before_asym : (a b : Text) → text_before a b ≡ true → text_before b a ≡ false
unfolding text_before
text_before_asym [] [] h = cc
text_before_asym [] (b ∷ t) h = refl
text_before_asym (a ∷ s) [] h = cc
text_before_asym (a ∷ s) (b ∷ t) h = ground (arith, text_before_asym s t)

-- The sign of a comparison tells which side is less.
abbrev IsSign : ℤ → Bool → Bool → Type 0
IsSign c l_less r_less = (is_negative c ≡ l_less) × (is_positive c ≡ r_less)

compare_text-IsSign : (a b : Text) → IsSign (compare_text a b) (text_before a b) (text_before b a)
unfolding compare_text
compare_text-IsSign a b = ground (arith, text_before_asym a b)

compare_time-IsSign : (a b : ℕ) → IsSign (compare_time a b) (ltb a b) (ltb b a)
unfolding compare_time
compare_time-IsSign a b = ground arith

compare_float-IsSign :
    ⦃f : Float64⦄ (a b : ℕ) → IsSign (compare_float a b) (f.less a b) (f.less b a)
unfolding compare_float
compare_float-IsSign ⦃f⦄ a b = ground (arith, f.less_asym a b)

is_positive-pos : (n : ℕ) → is_positive (pos n) ≡ ltb 0 n
is_positive-pos zero = refl
is_positive-pos (suc n) = ground arith

difference-IsSign : (a b : ℕ) → IsSign (difference a b) (ltb a b) (ltb b a)
difference-IsSign a b = (ground arith, ground (arith, is_positive-pos (a - b)))

status_rank-place_in : (word : Text) → host_status_rank word ≡ place_in statuses word
unfolding host_status_rank
status_rank-place_in word = ground arith

either-IsSign :
    (b : Bool) (v w : ℤ) (p q : Host → Host → Bool) (l r : Host)
    → IsSign v (p l r) (p r l)
    → IsSign w (q l r) (q r l)
    → IsSign (if b then v else w) ((if b then p else q) l r) ((if b then p else q) r l)
either-IsSign true v w p q l r h k = h
either-IsSign false v w p q l r h k = k

-- The name decides where the comparison by the key is 0.
or_names-IsSign :
    (k n : ℤ) (kl kr nl nr : Bool)
    → IsSign k kl kr
    → IsSign n nl nr
    → IsSign (if is_zero k then n else k) (kl || (not kr && nl)) (kr || (not kl && nr))
or_names-IsSign (pos zero) n kl kr nl nr (a, b) (c, d) = ground (arith, a, b, c, d)
or_names-IsSign (pos (suc m)) n kl kr nl nr (a, b) (c, d) = ground (arith, a, b, c, d)
or_names-IsSign (negsuc m) n kl kr nl nr (a, b) (c, d) = ground (arith, a, b, c, d)

module _ ⦃u : Unicode⦄ ⦃f : Float64⦄ (query : HostsPageQuery) (page : PageData) (now : ℕ) where
  abbrev lesser : Host → Host → Bool
  lesser = key_less query page now

  compare_names-IsSign :
      (l r : Host)
      → IsSign
          (compare_names query page now l r)
          (name_less query page now l r)
          (name_less query page now r l)
  compare_names-IsSign l r = compare_text-IsSign (to_lower l.name) (to_lower r.name)

  rank-IsSign :
      (l r : Host)
      → IsSign
          (difference (rank query page now l) (rank query page now r))
          (ltb (status_place query page now l) (status_place query page now r))
          (ltb (status_place query page now r) (status_place query page now l))
  rank-IsSign l r =
      rw
        (
          status_rank-place_in (host_status l (page.methods l.id) (page.badges l.id) now),
          status_rank-place_in (host_status r (page.methods r.id) (page.badges r.id) now),
        )
        (difference-IsSign _ _)

  compare_keys-IsSign :
      (l r : Host) → IsSign (compare_keys query page now l r) (lesser l r) (lesser r l)
  unfolding compare_keys
  compare_keys-IsSign l r =
      let key = λ (name : Text). query.sort_key == name in
      either-IsSign (key (codes "name")) _ _ _ _ l r (compare_names-IsSign l r) (
        either-IsSign (key (codes "status")) _ _ _ _ l r (rank-IsSign l r) (
          either-IsSign (key (codes "address")) _ _ _ _ l r (compare_text-IsSign l.ip r.ip) (
            either-IsSign (key (codes "cpu")) _ _ _ _ l r (compare_float-IsSign _ _) (
              either-IsSign (key (codes "memory")) _ _ _ _ l r (compare_float-IsSign _ _) (
                either-IsSign (key (codes "disk")) _ _ _ _ l r (compare_float-IsSign _ _) (
                  either-IsSign (key (codes "updated")) _ _ _ _ l r
                    (compare_time-IsSign l.updated_at r.updated_at)
                    (compare_time-IsSign l.created_at r.created_at)))))))

  compare_hosts-IsSign :
      (l r : Host)
      → IsSign
          (compare_hosts query page now l r)
          (less query page now l r)
          (less query page now r l)
  compare_hosts-IsSign l r =
      or_names-IsSign _ _ _ _ _ _ (compare_keys-IsSign l r) (compare_names-IsSign l r)

  pub host_before-belongs_before :
      (l r : Host) → host_before query page now l r ≡ belongs_before query page now l r
  unfolding host_before
  host_before-belongs_before l r = elim (Bool-cases (query.sort_direction == codes "desc")) [
    | inl desc ↦ rw desc (compare_hosts-IsSign l r).1
    | inr asc ↦ rw asc (compare_hosts-IsSign l r).0
  ]
