-- ===== src/Tests.antt =====
-- Tests of the definitions and instances of the theorems, at concrete inputs.
mod Fixtures
mod AuthzTests
mod SessionTests
mod ProxyTests
mod TargetsTests
mod StdioTests
mod InitializeTests
mod GatewayTests
mod AuthTests
mod SseTests
mod SseHubTests
mod ObservabilityTests
mod HttpClientTests
mod AccountsTests
mod PolicyTests
mod ClientsTests
