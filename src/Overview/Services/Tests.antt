-- ===== src/Overview/Services/Tests.antt =====
-- The endpoints of one service.
use apo.Common.{ℕ, List, [], ◌∷◌, ◌≡◌, refl}
use apo.Overview.Endpoints.{EndpointMetrics}
use apo.Overview.Endpoints.Tests.{whole, slow, fast}
use apo.Overview.Services.{fill_one_service, fill_services, no_data}
use apo.Overview.Services.Groups.{fill_services_lem, DistinctNames, service_of, find_service}

abbrev urls : List (EndpointMetrics ℕ)
urls = slow ∷ fast ∷ slow ∷ fast ∷ []

filled :
    fill_services whole urls
    ≡ record {
      service_name = "shop";
      endpoint_count = 4;
      service_size = 3;
      endpoints = slow ∷ fast ∷ slow ∷ [];
    }
      ∷ []
unfolding fill_services
filled = refl

filled_one :
    fill_one_service urls
    ≡ record {
      service_name = "shop";
      endpoint_count = 4;
      service_size = 4;
      endpoints = slow ∷ fast ∷ slow ∷ fast ∷ [];
    }
      ∷ []
unfolding fill_one_service
filled_one = refl

fill_services_lem_example :
    (find_service "shop" (fill_services whole urls) ≡ service_of "shop" urls)
    × DistinctNames (fill_services whole urls)
unfolding no_data
fill_services_lem_example = fill_services_lem whole "shop" urls
