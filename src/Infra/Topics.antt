-- ===== src/Infra/Topics.antt =====
-- src/infra/constants.h: the MQTT topics.
use iv_cloud_gateway.Base.{String}

abbrev pub trip_init : String
trip_init = "topic/trip/init"

abbrev pub trip_move : String
trip_move = "topic/trip/move"

abbrev pub trip_eta : String
trip_eta = "topic/trip/eta"

abbrev pub trip_status : String
trip_status = "topic/trip/status"

abbrev pub trip_arrive : String
trip_arrive = "topic/trip/arrive"

abbrev pub update_location : String
update_location = "topic/vehicle/update/location"

abbrev pub trip_park : String
trip_park = "topic/trip/park"

abbrev pub order_update_location : String
order_update_location = "topic/update_location/order"

abbrev pub order_update_status : String
order_update_status = "topic/update_status/order"

abbrev pub trip_cancel : String
trip_cancel = "topic/trip/cancel"

abbrev pub stream_location : String
stream_location = "topic/trip/stream_location"
