-- ===== src/Providers/Errors.antt =====
-- internal/provider/errors/update.go and validation.go: the package errors of the providers.
use ddns_updater_beget.Common.{
  [], ◌∷◌, ◌++◌, List, Bytes, codes, Error, Sentinel, err_banned_abuse, prefixed,
}
use ddns_updater_beget.Domain.{DomainError}

-- The errors of an update.
pub data Kind : Type 0 where
  account_inactive auth bad_request banned_abuse banned_user_agent conflicting_record : Kind
  dns_server_side domain_disabled domain_id_not_found domain_not_found : Kind
  feature_unavailable hostname_not_exists http_status_not_valid ip_received_malformed : Kind
  ip_received_mismatch ip_sent_malformed no_service private_ip_sent received_no_ip : Kind
  received_no_result record_not_editable record_not_found record_resource_set_not_found : Kind
  response_too_short results_count_received session_is_empty system_param_not_valid : Kind
  unknown_response unsuccessful zone_not_found : Kind

unfoldable pub kind_text : Kind → Bytes
kind_text account_inactive = codes "account is inactive"
kind_text auth = codes "bad authentication"
kind_text bad_request = codes "bad request sent"
kind_text banned_abuse = codes "banned due to abuse"
kind_text banned_user_agent = codes "user agent is banned"
kind_text conflicting_record = codes "conflicting record"
kind_text dns_server_side = codes "server side DNS error"
kind_text domain_disabled = codes "record disabled"
kind_text domain_id_not_found = codes "ID not found in domain record"
kind_text domain_not_found = codes "domain not found"
kind_text feature_unavailable = codes "feature is not available to the user"
kind_text hostname_not_exists = codes "hostname does not exist"
kind_text http_status_not_valid = codes "HTTP status is not valid"
kind_text ip_received_malformed = codes "malformed IP address received"
kind_text ip_received_mismatch = codes "mismatching IP address received"
kind_text ip_sent_malformed = codes "malformed IP address sent"
kind_text no_service = codes "no service"
kind_text private_ip_sent = codes "private IP cannot be routed"
kind_text received_no_ip = codes "received no IP address in response"
kind_text received_no_result = codes "received no result in response"
kind_text record_not_editable = codes "record is not editable"
kind_text record_not_found = codes "record not found"
kind_text record_resource_set_not_found = codes "record resource set not found"
kind_text response_too_short = codes "response is too short"
kind_text results_count_received = codes "wrong number of results received"
kind_text session_is_empty = codes "session received is empty"
kind_text system_param_not_valid = codes "system parameter is not valid"
kind_text unknown_response = codes "unknown response received"
kind_text unsuccessful = codes "unsuccessful result"
kind_text zone_not_found = codes "zone not found"

-- What of them the updater asks for by `errors.Is`.
unfoldable pub kind_sentinels : Kind → List Sentinel
kind_sentinels banned_abuse = err_banned_abuse ∷ []
kind_sentinels _ = []

-- The errors that an update returns: one of the kinds, the same with more text after a colon, an
-- error of another package after a text and a colon, or such an error as it is.
pub data Fault : Type 0 where
  bare : Kind → Fault
  detailed : Kind → Bytes → Fault
  caused : Bytes → Error → Fault
  passed_on : Error → Fault

unfoldable pub to_error : Fault → Error
unfolding kind_text kind_sentinels
to_error (bare k) = record { wrapped = kind_sentinels k; text = kind_text k }
to_error (detailed k t) = record {
  wrapped = kind_sentinels k;
  text = kind_text k ++ b':' ∷ b' ' ∷ t;
}
to_error (caused t e) = prefixed t e
to_error (passed_on e) = e

-- The errors of the settings.
pub data Setting : Type 0 where
  access_key_id_not_set access_key_not_set access_key_secret_not_set api_key_not_set : Setting
  api_secret_not_set app_key_not_set consumer_key_not_set credentials_not_set : Setting
  credentials_not_valid customer_number_not_set domain_not_set email_not_set : Setting
  email_not_valid gcp_project_not_set domain_not_valid owner_not_set owner_wildcard : Setting
  ipv4_key_not_set ipv6_key_not_set key_not_set key_not_valid name_not_set : Setting
  password_not_set password_not_valid secret_key_not_set secret_not_set : Setting
  success_regex_not_set token_not_set token_not_valid ttl_not_set ttl_too_low : Setting
  url_not_https url_not_set username_not_set username_not_valid : Setting
  user_service_key_not_valid zone_identifier_not_set : Setting

unfoldable pub setting_text : Setting → Bytes
setting_text access_key_id_not_set = codes "access key id is not set"
setting_text access_key_not_set = codes "access key is not set"
setting_text access_key_secret_not_set = codes "key secret is not set"
setting_text api_key_not_set = codes "API key is not set"
setting_text api_secret_not_set = codes "API secret is not set"
setting_text app_key_not_set = codes "app key is not set"
setting_text consumer_key_not_set = codes "consumer key is not set"
setting_text credentials_not_set = codes "credentials are not set"
setting_text credentials_not_valid = codes "credentials are not valid"
setting_text customer_number_not_set = codes "customer number is not set"
setting_text domain_not_set = codes "domain is not set"
setting_text email_not_set = codes "email is not set"
setting_text email_not_valid = codes "email address is not valid"
setting_text gcp_project_not_set = codes "GCP project is not set"
setting_text domain_not_valid = codes "domain is not valid"
setting_text owner_not_set = codes "owner is not set"
setting_text owner_wildcard = codes "owner cannot be " ++ 34 ∷ b'*' ∷ 34 ∷ []
setting_text ipv4_key_not_set = codes "IPv4 key is not set"
setting_text ipv6_key_not_set = codes "IPv6 key is not set"
setting_text key_not_set = codes "key is not set"
setting_text key_not_valid = codes "key is not valid"
setting_text name_not_set = codes "name is not set"
setting_text password_not_set = codes "password is not set"
setting_text password_not_valid = codes "password is not valid"
setting_text secret_key_not_set = codes "secret key is not set"
setting_text secret_not_set = codes "secret is not set"
setting_text success_regex_not_set = codes "success regex is not set"
setting_text token_not_set = codes "token is not set"
setting_text token_not_valid = codes "token is not valid"
setting_text ttl_not_set = codes "TTL is not set"
setting_text ttl_too_low = codes "TTL is too low"
setting_text url_not_https = codes "url is not https"
setting_text url_not_set = codes "url is not set"
setting_text username_not_set = codes "username is not set"
setting_text username_not_valid = codes "username is not valid"
setting_text user_service_key_not_valid = codes "user service key is not valid"
setting_text zone_identifier_not_set = codes "zone identifier is not set"

-- What a validation of settings returns: the error of the domain's check, or one of the kinds, with
-- the text or the value that the code adds to it.
pub data SettingError : Type 0 where
  bad_domain : DomainError → SettingError
  refused : Setting → Bytes → SettingError
