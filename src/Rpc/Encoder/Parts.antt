-- ===== src/Rpc/Encoder/Parts.antt =====
-- The parts that the encoder of pkg/rpc/encoder.go is made of in pkg/server/server.go: the MQTT client of
-- pkg/mqtt/mqtt.go and the processor of pkg/pipeline/pipeline.go.
use iotencoder.Common.{ℕ, Option, Error}
use iotencoder.Common.Float.{Float64}
use iotencoder.Smartcitizen.Types.{Json}
use iotencoder.Mqtt.{Client, subscribe, unsubscribe}
use iotencoder.Pipeline.Operations.{MovingAverager}
use iotencoder.Pipeline.Processor.{Services, World, process}
use iotencoder.Rpc.Encoder.{MqttClient, Processor}

abbrev pub mqtt_client : (ℕ → Option Error) → MqttClient Client
mqtt_client faults = record { subscribe = subscribe faults; unsubscribe = unsubscribe faults }

abbrev pub pipeline_processor :
    {F S : Type 0} ⦃f : Float64 F⦄ → MovingAverager F S → Json F → Services → Processor F (World S)
pipeline_processor avg json services = record { process = process avg json services }
