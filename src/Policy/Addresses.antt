-- ===== src/Policy/Addresses.antt =====
-- internal/policy/policy.go: the address whitelist. Parsing and comparing addresses is the `net`
-- package's, a parameter here: `parse_cidr` gives the test of the network that it parsed.
use ddag.Base.{Bool, false, ◌||◌, Option, none, some, List, [], ◌∷◌, if◌then◌else◌, ◌==◌, Text}
use ddag.Models.{is_empty, trim_space, trim_left, trim_right}

pub record Net : Type 1 where
  pub Ip : Type 0
  pub parse_ip : Text → Option Ip
  pub equal : Ip → Ip → Bool
  pub parse_cidr : Text → Option (Ip → Bool)

abbrev pub has_slash : Text → Bool
has_slash [] = false
has_slash (c ∷ s) = c == b'/' || has_slash s

module _ (net : Net) where
  abbrev pub in_network : Option (net.Ip → Bool) → net.Ip → Bool
  in_network none ip = false
  in_network (some within) ip = within ip

  abbrev pub is_single : Option net.Ip → net.Ip → Bool
  is_single none ip = false
  is_single (some single) ip = net.equal single ip

  -- One turn of the loop over the entries, on the entry without its outer spaces.
  unfoldable pub entry_allows : net.Ip → Text → Bool
  entry_allows ip entry =
      if is_empty entry
      then false
      else if has_slash entry
      then in_network (net.parse_cidr entry) ip
      else is_single (net.parse_ip entry) ip

  unfoldable pub entries_allow : net.Ip → List Text → Bool
  unfolding entry_allows trim_left trim_right
  entries_allow ip [] = false
  entries_allow ip (entry ∷ entries) =
      entry_allows ip (trim_space entry) || entries_allow ip entries

  parsed_allows : Option net.Ip → List Text → Bool
  unfolding entries_allow
  parsed_allows none cidrs = false
  parsed_allows (some ip) cidrs = entries_allow ip cidrs

  unfoldable pub ip_allowed : Text → List Text → Bool
  unfolding parsed_allows trim_left trim_right
  ip_allowed ip [] = false
  ip_allowed ip (c ∷ cidrs) = parsed_allows (net.parse_ip (trim_space ip)) (c ∷ cidrs)
