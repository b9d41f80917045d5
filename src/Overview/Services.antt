-- ===== src/Overview/Services.antt =====
-- `fillServices` and `fillOneService` of sortrule.go: the endpoints grouped by their services.
pub mod Groups
pub mod Tests
use text.Mathlib.Text.{◌==◌ as str_eq}
use apo.Common.{
  ◌+◌, ℕ, String, Bool, true, false, not, ◌&&◌, ◌||◌, Option, none, some, List, [], ◌∷◌, ◌++◌,
  if◌then◌else◌, ltb, suc, any,
}
use apo.Overview.Endpoints.{EndpointMetrics, Floats, found}

-- The fields of a service that are filled here.
pub record ServiceDetail (F : Type 0) : Type 0 where
  pub service_name : String
  pub endpoint_count : ℕ
  pub service_size : ℕ
  pub endpoints : List (EndpointMetrics F)

module _ {F : Type 0} where
  abbrev pub is_service : String → ServiceDetail F → Bool
  is_service name s = str_eq s.service_name name

  abbrev pub new_service : EndpointMetrics F → ServiceDetail F
  new_service url = record {
    service_name = url.svc_name;
    endpoint_count = 1;
    service_size = 1;
    endpoints = url ∷ [];
  }

  -- A service shows three endpoints, and counts the others.
  abbrev pub with_endpoint : EndpointMetrics F → ServiceDetail F → ServiceDetail F
  with_endpoint url s =
      if ltb s.service_size 3
      then record s {
        endpoint_count = s.endpoint_count + 1;
        endpoints = s.endpoints ++ url ∷ [];
        service_size = s.service_size + 1;
      }
      else record s { endpoint_count = s.endpoint_count + 1 }

  -- The inner loop of `fillServices`, which leaves at a service that it has put the endpoint into.
  unfoldable pub note_endpoint : EndpointMetrics F → List (ServiceDetail F) → List (ServiceDetail F)
  note_endpoint url [] = []
  note_endpoint url (s ∷ ss) =
      let rest = note_endpoint url ss in
      if is_service url.svc_name s
      then with_endpoint url s ∷ (if ltb s.service_size 3 then ss else rest)
      else s ∷ rest

  unfoldable pub fill_endpoint : EndpointMetrics F → List (ServiceDetail F) → List (ServiceDetail F)
  unfolding note_endpoint
  fill_endpoint url services =
      if any (is_service url.svc_name) services
      then note_endpoint url services
      else services ++ new_service url ∷ []

  abbrev pub is_zero : Floats F → Option F → Bool
  is_zero f none = false
  is_zero f (some a) = f.eq a (f.of_nat 0)

  -- An endpoint without data is left out.
  unfoldable pub no_data : Floats F → EndpointMetrics F → Bool
  no_data f url =
      (not (found f url.avg.latency) && not (found f url.avg.error_rate))
      || (not (found f url.avg.latency)
          && is_zero f url.avg.error_rate
          && not (found f url.avg.tpm))

  unfoldable pub fill_services_onto :
      Floats F → List (EndpointMetrics F) → List (ServiceDetail F) → List (ServiceDetail F)
  unfolding fill_endpoint no_data
  fill_services_onto f [] services = services
  fill_services_onto f (url ∷ urls) services =
      fill_services_onto f urls (if no_data f url then services else fill_endpoint url services)

  unfoldable pub fill_services : Floats F → List (EndpointMetrics F) → List (ServiceDetail F)
  unfolding fill_services_onto
  fill_services f endpoints = fill_services_onto f endpoints []

  -- `fillOneService`, which shows all endpoints and leaves none out.
  abbrev pub with_any_endpoint : EndpointMetrics F → ServiceDetail F → ServiceDetail F
  with_any_endpoint url s = record s {
    endpoint_count = s.endpoint_count + 1;
    endpoints = s.endpoints ++ url ∷ [];
    service_size = s.service_size + 1;
  }

  unfoldable pub note_any_endpoint :
      EndpointMetrics F → List (ServiceDetail F) → List (ServiceDetail F)
  note_any_endpoint url [] = []
  note_any_endpoint url (s ∷ ss) =
      if is_service url.svc_name s
      then with_any_endpoint url s ∷ ss
      else s ∷ note_any_endpoint url ss

  unfoldable pub fill_one_onto :
      List (EndpointMetrics F) → List (ServiceDetail F) → List (ServiceDetail F)
  unfolding note_any_endpoint
  fill_one_onto [] services = services
  fill_one_onto (url ∷ urls) services = fill_one_onto urls (
      if any (is_service url.svc_name) services
      then note_any_endpoint url services
      else services ++ new_service url ∷ [])

  unfoldable pub fill_one_service : List (EndpointMetrics F) → List (ServiceDetail F)
  unfolding fill_one_onto
  fill_one_service endpoints = fill_one_onto endpoints []
