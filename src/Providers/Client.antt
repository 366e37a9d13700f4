-- ===== src/Providers/Client.antt =====
-- What the Update methods of the providers share: internal/provider/headers, the constants of
-- internal/provider/constants/dyndns.go, and the calls of net/http and of pkg/ipextract around them.
use ddns_updater_beget.Common.{
  ℕ, Bool, true, false, ◌⊎◌, inl, inr, List, [], ◌∷◌, ◌++◌, Option, none, some, Bytes, codes, itoa,
  Error, if◌then◌else◌,
}
use ddns_updater_beget.Net.{Addr, same_addr, is4}
use ddns_updater_beget.Extract.{extract_ipv4, extract_ipv6}
use ddns_updater_beget.PublicIp.Http.{to_single_line}
use ddns_updater_beget.Providers.Errors.{
  Kind, Fault, bare, detailed, caused, http_status_not_valid, ip_received_mismatch, received_no_ip,
}

-- A GET request over HTTPS: the url.URL with its user and its query, before net/url encodes them,
-- and the headers set. The keys of a query differ from each other.
pub record Request : Type 0 where
  pub host : Bytes
  pub path : Bytes
  pub user : Option (Bytes × Bytes)
  pub query : List (Bytes × Bytes)
  pub headers : List (Bytes × Bytes)

-- How http.NewRequestWithContext and client.Do end: the status code, with the body as far as it can
-- be read.
pub data Exchange : Type 0 where
  create_failed do_failed : Error → Exchange
  answered : ℕ → Bytes ⊎ Error → Exchange

abbrev pub Client : Type 0
Client = Request → Exchange

-- What Update returns.
abbrev pub Outcome : Type 0
Outcome = Addr ⊎ Fault

-- SetUserAgent
abbrev pub user_agent : Bytes × Bytes
user_agent = (codes "User-Agent", codes "DDNS-Updater quentin.mcgaw@gmail.com")

-- SetAccept
abbrev pub accept : Bytes → Bytes × Bytes
accept content = (codes "Accept", content)

abbrev pub badauth : Bytes
badauth = codes "badauth"

abbrev pub nohost : Bytes
nohost = codes "nohost"

abbrev pub notfqdn : Bytes
notfqdn = codes "notfqdn"

abbrev pub badagent : Bytes
badagent = codes "badagent"

abbrev pub abuse : Bytes
abuse = codes "abuse"

abbrev pub nineoneone : Bytes
nineoneone = codes "911"

-- The cases of a switch, or the early returns, in their order; then what follows.
unfoldable pub switch {ℓ} : {A : Type ℓ} → List (Bool × A) → A → A
switch [] rest = rest
switch ((b, a) ∷ cases) rest = elim b [ true ↦ a | false ↦ switch cases rest ]

-- fmt.Errorf("%w", kind)
unfoldable pub fails : Kind → Outcome
fails k = inr (bare k)

-- fmt.Errorf("%w: %s", kind, text)
unfoldable pub fails_with : Kind → Bytes → Outcome
fails_with k text = inr (detailed k text)

-- fmt.Errorf("%w: %d: %s", errors.ErrHTTPStatusNotValid, code, text)
unfoldable pub fails_by_status : ℕ → Bytes → Outcome
unfolding fails_with
fails_by_status code text = fails_with http_status_not_valid (itoa code ++ b':' ∷ b' ' ∷ text)

-- The creation of the request and the call of the client. The code returns the error of client.Do
-- after a text, or as it is: `doing` says which.
unfoldable pub exchanged : (Error → Fault) → Exchange → (ℕ → Bytes ⊎ Error → Outcome) → Outcome
exchanged doing (create_failed e) read = inr (caused (codes "creating http request") e)
exchanged doing (do_failed e) read = inr (doing e)
exchanged doing (answered code body) read = read code body

unfoldable pub doing_request : Error → Fault
doing_request e = caused (codes "doing http request") e

-- io.ReadAll, with its error returned
unfoldable pub read_all : Bytes ⊎ Error → (Bytes → Outcome) → Outcome
read_all (inl s) next = next s
read_all (inr e) next = inr (caused (codes "reading response body") e)

-- utils.BodyToSingleLine
unfoldable pub body_to_single_line : Bytes ⊎ Error → Bytes
unfolding to_single_line
body_to_single_line (inl s) = to_single_line s
body_to_single_line (inr e) = []

module _ (show : Addr → Bytes) where
  unfoldable pub mismatch : Addr → Addr → Outcome
  unfolding fails_with
  mismatch ip new_ip =
      fails_with ip_received_mismatch
        (codes "sent ip " ++ (show ip ++ (codes " to update but received " ++ show new_ip)))

  -- The comparison of the address received with the one sent.
  unfoldable pub compared : Addr → Addr → Outcome
  unfolding same_addr mismatch
  compared ip new_ip = if same_addr ip new_ip then inl new_ip else mismatch ip new_ip

  -- The first address of an extraction, compared. Every extraction ends, so that `none` is not reached.
  unfoldable pub first_compared : Addr → Option (List Addr) → Outcome
  unfolding compared fails
  first_compared ip none = fails received_no_ip
  first_compared ip (some []) = fails received_no_ip
  first_compared ip (some (new_ip ∷ ips)) = compared ip new_ip

  -- The addresses of the version of the one sent, of which the first is compared.
  unfoldable pub extracted : (Bytes → Option Addr) → Addr → Bytes → Outcome
  unfolding first_compared extract_ipv4 extract_ipv6 is4
  extracted parse ip s =
      first_compared ip (if is4 ip then extract_ipv4 parse s else extract_ipv6 parse s)
